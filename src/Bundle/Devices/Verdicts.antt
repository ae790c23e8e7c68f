-- ===== src/Bundle/Devices/Verdicts.antt =====
-- The devices that an account endorses, and how logs of others are answered.
use chat_store.Common.{
  Bool, true, false, ◌&&◌, ◌≡◌, refl, ap, ◌∙◌, inl, inr, Bool-cases, Option, none, some, List, [],
  ◌∷◌, if◌then◌else◌,
}
use chat_store.Common.Exec.{Result, ok, err}
use chat_store.Rust.Bytes.{Bytes, eq_bytes, eq_bytes_comm, eq_bytes_sound}
use chat_store.Crates.{Crates, Outcome, updated, unchanged, identical, behind, diverged}
use chat_store.Crates.Drafting.{compare_devices}
use chat_store.Store.AccountLogs.{is_updated}
use chat_store.Bundle.{Error, stale, forked, verdict}

-- The devices on file, if any, and a log of others: how they compare, and the devices then on file.
abbrev pub judged : Option (List Bytes) → List Bytes → Outcome
judged none new = updated
judged (some old) new = compare_devices old new

abbrev pub endorsed : Option (List Bytes) → List Bytes → Option (List Bytes)
endorsed old new = if is_updated (judged old new) then some new else old

-- The second list begins with all of the first.
unfoldable pub begins : List Bytes → List Bytes → Bool
begins [] new = true
begins (d ∷ old) [] = false
begins (d ∷ old) (e ∷ new) = eq_bytes d e && begins old new

-- What a publication of `new` makes of the devices on file.
unfoldable pub replaced : Option (List Bytes) → List Bytes → Option (List Bytes)
replaced none new = some new
replaced (some old) new = some (if begins old new then new else old)

-- The devices on file once all were published.
unfoldable pub finally : Option (List Bytes) → List (List Bytes) → Option (List Bytes)
finally old [] = old
finally old (new ∷ logs) = finally (replaced old new) logs

-- The four ways in which two lists of devices compare.
data Comparison (old new : List Bytes) : Outcome → Type 0 where
  same : old ≡ new → begins old new ≡ true → Comparison old new (unchanged identical)
  longer : begins old new ≡ true → Comparison old new updated
  shorter : begins old new ≡ false → begins new old ≡ true → Comparison old new (unchanged behind)
  apart : begins old new ≡ false → begins new old ≡ false → Comparison old new (unchanged diverged)

Comparison-extend :
    (d e : Bytes) (old new : List Bytes) (o : Outcome)
    → eq_bytes d e ≡ true
    → Comparison old new o
    → Comparison (d ∷ old) (e ∷ new) o
unfolding begins
Comparison-extend d e old new _ h (same p q) =
    same (ap (λ x. x ∷ old) (eq_bytes_sound d e h) ∙ ap (λ x. e ∷ x) p) (rw h q)
Comparison-extend d e old new _ h (longer q) = longer (rw h q)
Comparison-extend d e old new _ h (shorter q r) = shorter (rw h q) (rw (eq_bytes_comm e d, h) r)
Comparison-extend d e old new _ h (apart q r) = apart (rw h q) (rw (eq_bytes_comm e d, h) r)

compare_devices-Comparison : (old new : List Bytes) → Comparison old new (compare_devices old new)
unfolding begins compare_devices
compare_devices-Comparison [] [] = same refl refl
compare_devices-Comparison [] (e ∷ new) = longer refl
compare_devices-Comparison (d ∷ old) [] = shorter refl refl
compare_devices-Comparison (d ∷ old) (e ∷ new) = elim (Bool-cases (eq_bytes d e)) [
  | inl h ↦ rw h (Comparison-extend d e old new _ h (compare_devices-Comparison old new))
  | inr h ↦ rw h (apart (rw h refl) (rw (eq_bytes_comm e d, h) refl))
]

Comparison-replaced :
    (old new : List Bytes) (o : Outcome)
    → Comparison old new o
    → (if is_updated o then some new else some old) ≡ replaced (some old) new
unfolding replaced
Comparison-replaced old new _ (same p q) = rw q (ap some p)
Comparison-replaced old new _ (longer q) = rw q refl
Comparison-replaced old new _ (shorter q r) = rw q refl
Comparison-replaced old new _ (apart q r) = rw q refl

pub endorsed-replaced :
    (old : Option (List Bytes)) (new : List Bytes) → endorsed old new ≡ replaced old new
unfolding replaced
endorsed-replaced none new = refl
endorsed-replaced (some old) new =
    Comparison-replaced old new (compare_devices old new) (compare_devices-Comparison old new)

module _ (crates : Crates) where
  -- A publication where none is on file, or that begins with all that is on file, is accepted;
  -- else one that is only the beginning of what is on file is stale, and any other a fork.
  unfoldable pub answer : Option (List Bytes) → List Bytes → Result (Error crates) (Unit {0})
  answer none new = ok tt
  answer (some old) new =
      if begins old new then ok tt else if begins new old then err stale else err forked

  -- The answers to logs that are published one after another.
  unfoldable pub answers :
      Option (List Bytes) → List (List Bytes) → List (Result (Error crates) (Unit {0}))
  answers old [] = []
  answers old (new ∷ logs) = answer old new ∷ answers (replaced old new) logs

  Comparison-answer :
      (old new : List Bytes) (o : Outcome)
      → Comparison old new o
      → verdict crates o ≡ answer (some old) new
  unfolding answer
  Comparison-answer old new _ (same p q) = rw q refl
  Comparison-answer old new _ (longer q) = rw q refl
  Comparison-answer old new _ (shorter q r) = rw (q, r) refl
  Comparison-answer old new _ (apart q r) = rw (q, r) refl

  pub verdict-answer :
      (old : Option (List Bytes)) (new : List Bytes)
      → verdict crates (judged old new) ≡ answer old new
  unfolding answer
  verdict-answer none new = refl
  verdict-answer (some old) new =
      Comparison-answer old new (compare_devices old new) (compare_devices-Comparison old new)
