-- ===== src/Clients/Benchmark/Options.antt =====
-- The options of examples/benchmark.rs.
pub mod Checks
use Prim.Native.Char.{code}
use Prim.Native.String.{◌++◌}
use chat_store.Common.{
  ℕ, ◌+◌, ◌-◌, ◌*◌, ◌^◌, ◌≤◌, ◌<◌, ◌≡◌, refl, inl, inr, arith, String, Bool, true, false, not, ◌&&◌,
  ◌||◌, List, [], ◌∷◌, ◌==◌, leb, beq, if◌then◌else◌, Bool-cases, subst, ◌⊎◌,
}
use chat_store.Common.Exec.{Result, ok, err, and_then, map_err, Result-cases, ok-injective}
use chat_store.Clients.Benchmark.Work.{split_work, workers_of, sum, split_work_lem}

pub record Config : Type 0 where
  pub operations : ℕ
  pub concurrency : ℕ
  pub payload_bytes : ℕ
  pub server_bin : String
  pub keep_db : Bool

abbrev pub default_config : Config
default_config = record {
  operations = 1000;
  concurrency = 16;
  payload_bytes = 512;
  server_bin = "target/release/chat-store";
  keep_db = false;
}

abbrev pub is_digit : ℕ → Bool
is_digit c = leb b'0' c && leb c b'9'

-- The digits of a `usize` after those that make `n`.
unfoldable pub parse_digits : ℕ → String → Result String ℕ
parse_digits n String.[] = ok n
parse_digits n (String.◌∷◌ c rest) =
    let n' = n * 10 + (code c - b'0') in
    let parsed = parse_digits n' rest in
    if not (is_digit (code c))
    then err "invalid digit found in string"
    else if leb (2 ^ 64) n'
    then err "number too large to fit in target type"
    else parsed

-- `usize::from_str`: a plus sign is read where digits follow it.
unfoldable pub parse_usize : String → Result String ℕ
parse_usize String.[] = err "cannot parse integer from empty string"
parse_usize (String.◌∷◌ c String.[]) = parse_digits 0 (String.◌∷◌ c String.[])
parse_usize (String.◌∷◌ c (String.◌∷◌ d rest)) =
    if beq (code c) b'+'
    then parse_digits 0 (String.◌∷◌ d rest)
    else parse_digits 0 (String.◌∷◌ c (String.◌∷◌ d rest))

-- `parse_value`, of the value that follows the option
abbrev pub parse_value : String → String → Result String ℕ
parse_value option value =
    map_err (λ error. "invalid value for " ++ (option ++ (": " ++ error))) (parse_usize value)

-- What an argument does: it sets a field of its own, it sets one from the next argument, or it ends
-- the program.
pub data Action : Type 0 where
  sets : Config → Action
  takes : (String → Result String Config) → Action
  stops : String → Action

-- A field that a number sets.
abbrev pub takes_number : String → (ℕ → Config) → Action
takes_number option set = takes (λ value. and_then (parse_value option value) λ n. ok (set n))

abbrev pub action : Config → String → Action
action config arg =
    if arg == "--operations"
    then takes_number "--operations" (λ n. record config { operations = n })
    else if arg == "--concurrency"
    then takes_number "--concurrency" (λ n. record config { concurrency = n })
    else if arg == "--payload-bytes"
    then takes_number "--payload-bytes" (λ n. record config { payload_bytes = n })
    else if arg == "--server-bin"
    then takes (λ value. ok (record config { server_bin = value }))
    else if arg == "--keep-db"
    then sets (record config { keep_db = true })
    else if arg == "--help" || arg == "-h"
    then stops "help requested"
    else stops ("unknown option: " ++ arg)

-- The loop over the arguments, with `next_value`: an option that takes a value needs one more.
unfoldable pub parse_arguments : Config → List String → Result String Config
parse_arguments config [] = ok config
parse_arguments config (arg ∷ []) = elim (action config arg) [
  | sets config' ↦ ok config'
  | takes set ↦ err (arg ++ " requires a value")
  | stops message ↦ err message
]
parse_arguments config (arg ∷ value ∷ rest) = elim (action config arg) [
  | sets config' ↦ parse_arguments config' (value ∷ rest)
  | takes set ↦ and_then (set value) λ config'. parse_arguments config' rest
  | stops message ↦ err message
]

unfoldable pub parse_args : List String → Result String Config
parse_args args = and_then (parse_arguments default_config args) λ config.
    if beq config.operations 0 || beq config.concurrency 0
    then err "--operations and --concurrency must both be greater than zero"
    else ok config
