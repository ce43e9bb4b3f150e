-- ===== src/Tests/Parser.antt =====
-- The parser on small files.
use bano.Base.{
  ℕ, ◌<◌, ◌≤◌, if◌then◌else◌, ◌==◌, ◌≡◌, refl, false, Option, none, some, [], ◌∷◌, Bytes, codes,
  List, length, drop, arith,
}
use bano.Strings.{content}
use bano.Parser.Token.{
  next_token, is_white, is_comment, is_directive, is_nl, is_space, is_include_directive,
}
use bano.Parser.Token.Next.{IsNext, next_token-IsNext}
use bano.Parser.Token.Word.{word}
use bano.Parser.Outcome.{Outcome, done, failed, no_fuel}
use bano.Parser.Structs.{Struct, Pair, at, parse_struct}
use bano.Parser.Structs.Print.{print_pair, print_pairs, print_struct, ArePrintable}
use bano.Parser.Files.{Parser, load_file, parse_buf}
use bano.Parser.Files.Hang.{AtDirective, parse_buf-returns, parse_buf-no_fuel}
use bano.Parser.Files.RoundTrip.{print_structs, CanPrint, SameStructs, parse_buf-print_structs}

abbrev conf : Bytes
conf = codes "# base\nbase\n{\naddr = default # here\n}\n.include ./b.conf\n"

abbrev included : Bytes
included = codes "node { name = led }"

-- Two files: "c/a.conf" and the one that it includes.
abbrev files : Bytes → Option Bytes
files (c ∷ slash ∷ e ∷ path) = if e == b'.' then some included else some conf
files _ = none

abbrev Plain : Type 0
Plain = List (Bytes × List (Bytes × Bytes))

abbrev plain_pairs : List Pair → List (Bytes × Bytes)
plain_pairs [] = []
plain_pairs (x ∷ xs) = (content x.key, content x.val) ∷ plain_pairs xs

abbrev plain : List Struct → Plain
plain [] = []
plain (x ∷ xs) = (content x.name, plain_pairs x.pairs) ∷ plain xs

abbrev shown : Outcome Parser → Outcome Plain
shown (done p) = done (plain p.structs)
shown failed = failed
shown no_fuel = no_fuel

load_conf :
    shown (load_file files 20 40 (codes "c/a.conf"))
    ≡ done (
        (codes "base", (codes "addr", codes "default") ∷ [])
        ∷ (codes "node", (codes "name", codes "led") ∷ [])
        ∷ [])
unfolding load_file
load_conf = refl

abbrev nothing : Bytes → Option Bytes
nothing path = none

abbrev parser : ℕ → Parser
parser mem = record { top_dir = codes "./"; bufs = []; structs = []; mem = mem }

abbrev pub printed : List Struct
printed =
    record {
      name = at (codes "node") 4;
      pairs = record { key = at (codes "addr = 1") 4; val = at (codes "0x1") 3 } ∷ [];
    }
    ∷ []

pub printed-CanPrint : CanPrint printed
unfolding is_white is_comment is_directive is_nl is_space
printed-CanPrint =
    CanPrint.cons (word refl refl (refl, (refl, (refl, tt)))) refl
      (ArePrintable.cons (word refl refl (refl, (refl, (refl, tt)))) (λ e. cc)
        (word refl refl (refl, (refl, tt))) ArePrintable.nil)
      CanPrint.nil

pub printed-fits : length (print_structs printed) < 99
unfolding print_structs print_struct print_pairs print_pair
printed-fits = omega arith

parse_buf-print_structs_example :
    (out : List Struct) × (parse_buf nothing 99 (parser 9) (print_structs printed)
      ≡ done (record { top_dir = codes "./"; bufs = []; structs = out; mem = 5 }))
    × SameStructs out printed
parse_buf-print_structs_example =
    parse_buf-print_structs nothing 99 5 (parser 9) printed printed-CanPrint printed-fits refl

next_token-IsNext_example : IsNext conf (next_token conf)
next_token-IsNext_example = next_token-IsNext conf

abbrev stuck : Bytes
stuck = codes ".define x\n"

stuck-AtDirective : AtDirective stuck
unfolding load_file
stuck-AtDirective = record { present = λ e. cc; dotted = refl }

stuck-not_include :
    is_include_directive (drop (next_token stuck).off stuck) (next_token stuck).size ≡ false
unfolding load_file
stuck-not_include = refl

parse_buf-no_fuel_example : parse_buf nothing 1000 (parser 9) stuck ≡ no_fuel
parse_buf-no_fuel_example =
    parse_buf-no_fuel nothing 1000 (parser 9) stuck stuck-AtDirective stuck-not_include

parse_buf-no_fuel_run : parse_buf nothing 1000 (parser 9) stuck ≡ no_fuel
parse_buf-no_fuel_run =
    parse_buf-no_fuel nothing 1000 (parser 9) stuck stuck-AtDirective stuck-not_include

parse_buf-returns_example : (k : ℕ) × (k ≤ length stuck) × AtDirective (drop k stuck)
parse_buf-returns_example =
    parse_buf-returns nothing 1000 (parser 9) stuck (omega arith) parse_buf-no_fuel_run

abbrev read : Struct
read = record {
  name = at included 4;
  pairs = record { key = at (drop 7 included) 4; val = at (drop 14 included) 3 } ∷ [];
}

parse_struct_run : parse_struct 9 included ≡ done (7, read, 19)
unfolding load_file
parse_struct_run = refl
