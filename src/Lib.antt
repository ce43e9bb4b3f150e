-- ===== src/Lib.antt =====
-- The base station of bano, a network of radio nodes: what its C sources compute, and theorems
-- about it. Paths are from the repository's root.
--
-- The base loads a configuration file (src/base/bano_parser.c) made of structures of key and value
-- pairs, whose values it converts with src/base/bano_string.c, and exchanges 17 byte messages
-- (src/common/bano_common.h) with the nodes, which src/base/bano_cipher.c encrypts. It keeps nodes,
-- sockets, timers and requests in linked lists (src/base/bano_list.c) and the values of each node in
-- a dictionary (src/base/bano_dict.c), which is a table of such lists.
--
-- Strings models src/base/bano_string.c: `bano_string_t` is the record BanoString of the bytes that
--   its pointer leads to and a size. Each function of the source is the definition of that name
--   without the prefix `bano_string_`. An error return is `none`. `strtoul` is a parameter.
-- Cipher and Cipher.Xtea model src/base/bano_cipher.c: `cipher_enc` and `cipher_dec` are
--   `bano_cipher_enc` and `bano_cipher_dec` on the list of the bytes from `data` on.
-- Items models src/base/bano_list.c on a heap from addresses to items: each function takes the heap
--   and the list and gives both back, and a dereference of NULL or of freed memory is a fault.
--   Items.Seg says when links form a chain, Items.Refine and Items.Insert compare the operations with
--   those of a sequence, Items.Loops has the loops.
-- Dict models src/base/bano_dict.c: `dict_add`, `dict_get` and so on are the functions with the
--   prefix `bano_`. Its lists are sequences; the functions of Items that it stands on are `add_tail`
--   and `del`.
-- Nodl models src/base/bano_nodl.c, the description of a kind of node, and its search.
-- Config models the part of src/base/bano_base.c that applies a configuration file: each callback on
--   a pair is a function from the state that it writes to, which gives that state back with the error
--   that it sets. Config.Pairs has those for keys and nodes, Config.Nodls the directory of
--   descriptions, Config.Station the settings of the base.
-- Sockets models src/base/bano_socket.c, bano_socket_snrf.c and bano_socket_httpd.c: a socket is
--   the radio or the web server. The library for the radio is a parameter, the record Snrf; what it
--   does where it succeeds is IsRadio in Sockets.Radio, and `NextPending` in Sockets.Peek.
--   Sockets.Opened says which sockets are open.
-- Setup models the rest of how src/base/bano_base.c opens a base: Setup.Pairs has the callbacks for
--   the pairs of sockets, servers, cameras and text messages, Setup `apply_struct` to `bano_open`.
--   Whether the web server and the camera start is a parameter each, and so is what uninitialized
--   memory holds; text messages are those of Sms. Setup.Opened and Setup.Structs follow what holds of
--   the base, Setup.Started has the loop run on a base that is open.
-- Camera models the images of src/base/bano_cam.c and src/base/bano_bmp.c. The device is not
--   modelled, and the conversion of one pixel, which computes with floating point numbers, is a
--   parameter.
-- Sms models the account for text messages of src/base/bano_sms.c, on the ciphers and the opening of
--   the library matrixssl as parameters, up to the path of a request.
-- Program models src/base/main.c: the command line and the functions that it has called for a node,
--   without what is printed.
-- Timers models src/base/bano_timer.c: the list of timers is a sequence, in which each item says
--   whether its `prev` leads to the one in front, as it does not behind `bano_list_add_before`.
--   Timers.Dues has the times at which the timers are due.
-- Network models the nodes and requests of src/base/bano_node.c and src/base/bano_base.c: nodes and
--   requests have addresses, a request is in a memory of its own, and what the base calls in the
--   program around it is a list of events. Network.Receive has the handlers of messages from nodes,
--   Network.Web that of requests from the web server, Network.Send the writes, Network.Expire the
--   branch for a timer that has run out, Network.Loop `bano_start_loop` and its rounds, each with
--   what `select` and the sockets give in it. `none` is a step that C leaves undefined; `sms_ready` of
--   the base says whether `sms` may be used. In Network.Retry a request gets no answer, in
--   Network.Balance all requests are counted along any steps.
--   Network.Exchange has a request of the base and the answer of the firmware of a node to it.
--   Network.Safe says which base is in order: Safe.Clock follows the timers, Safe.Items, Safe.Cells,
--   Safe.Nodes and Safe.Kept the lists, Safe.Moves and Safe.Places a request that leaves a list or
--   comes to one, Safe.Idle a base before its first request, and the rest the handlers up to the
--   rounds.
-- Firmware models src/node/bano_node.c, the program of a node: its messages, the order of its events,
--   its answers and the counts for its timer. Its cipher, its address and the handlers that its user
--   writes are parameters.
-- Html models src/base/bano_html.c, a page that grows in one block; Pages models the pages of
--   src/base/bano_base.c from `format_time` to `complete_httpd_msg`, as built without a camera, and
--   `bano_httpd_complete_msg`; Pages.Requests has what `on_event` of src/base/bano_httpd.c makes of a
--   request. What `vsnprintf` prints is written out; sizes stay below 2 ^ 31.
-- Message models the packed structure of src/common/bano_common.h as bytes, and the calls of the
--   cipher on it in src/base/bano_base.c: `seal` in `post_io`, `unseal` in `handle_bano_msg`.
-- Parser models src/base/bano_parser.c. Parser.Token has the functions on single tokens,
--   Parser.Structs `parse_pair` and `parse_struct`, Parser.Files the directives, the files and
--   `parse_buf`, Parser.Find the searches. A pointer with a length is the list of those bytes. The system calls of `alloc_mmap_buf` are one parameter from
--   paths to contents, and `malloc` grants a given number of requests.
-- Base holds lists, numbers and words that all parts share, and Tests holds runs of the code.
--
-- Bounds: words of w bits wrap around at 2 ^ w where the source computes with them. Sizes and
-- offsets of the parser stay within its input and are plain numbers. The loops that skip comments
-- and read pairs run on one more fuel than there are bytes left, and each round but the last takes
-- at least one byte. `parse_buf` takes its fuel as an argument, since an include may nest without
-- end and an unknown directive is never passed, and Config hands it on. The loops over a heap take
-- fuel as well, since links may form a circle; each round follows one link. The flip of an image runs
-- on as much fuel as the image has lines, and swaps two of them in a round; a line of a frame takes
-- its fuel as an argument, since an odd width would wrap around.
--
-- `bano_start_loop` has no bound: a round is a function, and rounds follow one another along a list
-- of what happens in them.
--
-- Not modelled: the release of memory when the program ends, and the callbacks that only release it.
-- What a function does that the base calls is not modelled either, except for the reply to the web
-- server and what src/base/main.c does with a node. The registers of the firmware's processor and
-- radio, the threads of the web server, the device of the camera and the connection for text
-- messages, whose calls are largely those of the system and of the libraries under src/base/third,
-- are left out.
pub mod Base
pub mod Camera
pub mod Cipher
pub mod Config
pub mod Dict
pub mod Firmware
pub mod Html
pub mod Items
pub mod Message
pub mod Network
pub mod Nodl
pub mod Pages
pub mod Parser
pub mod Program
pub mod Setup
pub mod Sms
pub mod Sockets
pub mod Strings
pub mod Timers
pub mod Tests
