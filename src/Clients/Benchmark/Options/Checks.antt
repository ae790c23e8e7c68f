-- ===== src/Clients/Benchmark/Options/Checks.antt =====
-- What options that are accepted guarantee.
use Prim.Native.Char.{code}
use chat_store.Common.{
  ℕ, ◌+◌, ◌-◌, ◌*◌, ◌^◌, ◌≤◌, ◌<◌, ◌≡◌, refl, inl, inr, arith, String, Bool, true, false, ◌||◌,
  List, [], ◌∷◌, ◌==◌, beq, if◌then◌else◌, Bool-cases, subst, ◌⊎◌,
}
use chat_store.Common.Exec.{Result, ok, Result-cases, ok-injective}
use chat_store.Clients.Benchmark.Work.{split_work, workers_of, sum, split_work_lem}
use chat_store.Clients.Benchmark.Options.{
  Config, default_config, parse_digits, parse_usize, parse_value, Action, sets, takes, stops,
  takes_number, action, parse_arguments, parse_args,
}

parse_digits-lt :
    (n : ℕ) (text : String) {m : ℕ} → n < 2 ^ 64 → parse_digits n text ≡ ok m → m < 2 ^ 64
unfolding parse_digits
parse_digits-lt n String.[] small h = ground (arith, h)
parse_digits-lt n (String.◌∷◌ c rest) {m} small h =
    let further = parse_digits-lt (n * 10 + (code c - b'0')) rest {m = m} in ground arith

parse_usize-lt : (text : String) {m : ℕ} → parse_usize text ≡ ok m → m < 2 ^ 64
unfolding parse_usize
parse_usize-lt String.[] h = cc
parse_usize-lt (String.◌∷◌ c String.[]) h =
    parse_digits-lt 0 (String.◌∷◌ c String.[]) (omega arith) h
parse_usize-lt (String.◌∷◌ c (String.◌∷◌ d rest)) h = elim (Bool-cases (beq (code c) b'+')) [
  | inl plus ↦ parse_digits-lt 0 (String.◌∷◌ d rest) (omega arith) (rw plus at h)
  | inr digit ↦ parse_digits-lt 0 (String.◌∷◌ c (String.◌∷◌ d rest)) (omega arith) (rw digit at h)
]

-- The numbers are machine words.
abbrev pub IsSized : Config → Type 0
IsSized config =
    (config.operations < 2 ^ 64) × (config.concurrency < 2 ^ 64) × (config.payload_bytes < 2 ^ 64)

parse_value-lt : (option value : String) {m : ℕ} → parse_value option value ≡ ok m → m < 2 ^ 64
parse_value-lt option value h = elim (Result-cases (parse_usize value)) [
  | inr (e, bad) ↦ cc (rw bad at h)
  | inl (n, good) ↦ let small = parse_usize-lt value good in ground (arith, h)
]

-- What an argument sets keeps the numbers machine words.
abbrev KeepsSized : Action → Type 0
KeepsSized (sets config) = IsSized config
KeepsSized (takes set) = (value : String) (config : Config) → set value ≡ ok config → IsSized config
KeepsSized (stops message) = Unit

takes_number-KeepsSized :
    (option : String) (set : ℕ → Config)
    → ((n : ℕ) → n < 2 ^ 64 → IsSized (set n))
    → KeepsSized (takes_number option set)
takes_number-KeepsSized option set sized value config h =
    elim (Result-cases (parse_value option value)) [
      | inr (e, bad) ↦ cc (rw bad at h)
      | inl (n, good) ↦
          let same : ok (set n) ≡ ok config = rw good at h in
          subst IsSized (ok-injective same) (sized n (parse_value-lt option value good))
    ]

if-KeepsSized :
    (b : Bool) (x y : Action) → KeepsSized x → KeepsSized y → KeepsSized (if b then x else y)
if-KeepsSized true x y h k = h
if-KeepsSized false x y h k = k

action-KeepsSized :
    (config : Config) (arg : String) → IsSized config → KeepsSized (action config arg)
action-KeepsSized config arg (operations, concurrency, payload_bytes) =
    if-KeepsSized (arg == "--operations") _ _
      (takes_number-KeepsSized _ _ (λ n small. (small, concurrency, payload_bytes)))
      (if-KeepsSized (arg == "--concurrency") _ _
        (takes_number-KeepsSized _ _ (λ n small. (operations, small, payload_bytes)))
        (if-KeepsSized (arg == "--payload-bytes") _ _
          (takes_number-KeepsSized _ _ (λ n small. (operations, concurrency, small)))
          (if-KeepsSized (arg == "--server-bin") _ _
            (λ value c h. subst IsSized (ok-injective h) (operations, concurrency, payload_bytes))
            (if-KeepsSized (arg == "--keep-db") _ _ (operations, concurrency, payload_bytes)
              (if-KeepsSized (arg == "--help" || arg == "-h") _ _ tt tt)))))

Action-cases :
    (a : Action)
    → ((config : Config) × (a ≡ sets config))
      ⊎ ((set : String → Result String Config) × (a ≡ takes set))
      ⊎ ((message : String) × (a ≡ stops message))
Action-cases (sets config) = inl (config, refl)
Action-cases (takes set) = inr (inl (set, refl))
Action-cases (stops message) = inr (inr (message, refl))

parse_arguments-IsSized :
    (config : Config) (args : List String) {c : Config}
    → IsSized config
    → parse_arguments config args ≡ ok c
    → IsSized c
unfolding parse_arguments
parse_arguments-IsSized config [] sized h = subst IsSized (ok-injective h) sized
parse_arguments-IsSized config (arg ∷ []) sized h = elim (Action-cases (action config arg)) [
  | inl (config', e) ↦
      subst IsSized (ok-injective (rw (parse_arguments, e) at h))
        (subst KeepsSized e (action-KeepsSized config arg sized))
  | inr (inl (set, e)) ↦ cc (rw (parse_arguments, e) at h)
  | inr (inr (message, e)) ↦ cc (rw (parse_arguments, e) at h)
]
parse_arguments-IsSized config (arg ∷ value ∷ rest) {c} sized h =
    let kept = action-KeepsSized config arg sized in
    elim (Action-cases (action config arg)) [
      | inl (config', e) ↦
          parse_arguments-IsSized config' (value ∷ rest) (subst KeepsSized e kept)
            (rw (parse_arguments, e) at h)
      | inr (inr (message, e)) ↦ cc (rw (parse_arguments, e) at h)
      | inr (inl (set, e)) ↦ elim (Result-cases (set value)) [
        | inr (error, bad) ↦ cc (rw (parse_arguments, e, bad) at h)
        | inl (config', good) ↦
            parse_arguments-IsSized config' rest (subst KeepsSized e kept value config' good)
              (rw (parse_arguments, e, good) at h)
      ]
    ]

-- At least one operation; at least one worker, no more of them than operations or than the threads
-- that were asked for; and shares that add up to the operations.
abbrev pub IsRunnable : Config → Type 0
IsRunnable config =
    let workers = workers_of config.concurrency config.operations in
    (0 < config.operations)
    × (0 < workers)
    × (workers ≤ config.concurrency)
    × (workers ≤ config.operations)
    × (sum (split_work config.operations workers) ≡ config.operations)

IsRunnable-positive :
    (config : Config)
    → (beq config.operations 0 || beq config.concurrency 0) ≡ false
    → IsRunnable config
IsRunnable-positive config h =
    let workers = workers_of config.concurrency config.operations in
    let some_worker : 0 < workers = ground arith in
    (
      ground arith,
      some_worker,
      ground arith,
      ground arith,
      (split_work_lem config.operations workers some_worker).1,
    )

-- Options that are accepted give numbers that are machine words and at least one operation; there
-- is at least one worker, no more of them than operations or than the threads that were asked for,
-- and their shares add up to the operations.
pub parse_args-IsRunnable :
    (args : List String) (config : Config)
    → parse_args args ≡ ok config
    → IsSized config × IsRunnable config
unfolding parse_args
parse_args-IsRunnable args config h = elim (Result-cases (parse_arguments default_config args)) [
  | inr (e, bad) ↦ cc (rw bad at h)
  | inl (parsed, good) ↦
      let sized =
        parse_arguments-IsSized default_config args (omega arith, omega arith, omega arith) good in
      elim (Bool-cases (beq parsed.operations 0 || beq parsed.concurrency 0)) [
        | inl zero_given ↦ cc (rw (good, zero_given) at h)
        | inr positive ↦
            let same : parsed ≡ config = ok-injective (rw (good, positive) at h) in
            subst (λ c. IsSized c × IsRunnable c) same (sized, IsRunnable-positive parsed positive)
      ]
]
