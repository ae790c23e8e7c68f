-- ===== src/Tests/Replies.antt =====
-- The theorems about the endpoints, at concrete inputs.
use Prim.Native.Char.{Char, code}
use Prim.Native.String
use Prim.Native.String.append
use chat_store.Common.{
  ℕ, zero, suc, Bool, false, beq, count, ◌==◌, ap, ◌∙◌, ◌/◌, ◌%◌, ◌≡◌, ◌≢◌, ◌↔◌, refl, String, List,
  [], ◌∷◌, replicate, All,
}
use chat_store.Rust.Bytes.{Bytes}
use chat_store.Store.{Store, Env, empty}
use chat_store.Handlers.Errors.{okay, no_content, not_found, conflict}
use chat_store.Handlers.Endpoints.{
  SubmitAccountRequest, FetchKeyPackageResponse, get_keypackage, post_account, post_keypackage,
  keypackage_body, serve,
}
use chat_store.Handlers.Answers.{serve-unchanged}
use chat_store.Handlers.Conflicts.{IsReplay, conflict_iff}
use chat_store.Handlers.Fetching.{get_keypackage-IsSigned, get_keypackage-foreign}
use chat_store.Service.{Input, request, default_cli, run}
use chat_store.Service.Runs.Authenticity.{IsSigned, IsAuthentic, run-IsAuthentic}
use chat_store.Tests.Fixtures.{
  demo, demo-AccountLogLaws, at, payload_at, text_of, nth, digits, hex_digit, encode_hex,
}
use chat_store.Tests.Traffic.{traffic, after, executable}

-- The text starts with an `A`.
abbrev capital : String → Bool
capital String.[] = false
capital (String.◌∷◌ c t) = beq (code c) 65

capital-nth :
    (ds : List String) (n : ℕ) (rest : String)
    → All (λ d. (rest : String) → capital rest ≡ false → capital (String.◌++◌ d rest) ≡ false) ds
    → capital rest ≡ false
    → capital (String.◌++◌ (nth ds n) rest) ≡ false
capital-nth [] n rest h k = ap capital (append.nil rest) ∙ k
capital-nth (d ∷ ds) zero rest h k = h.0 rest k
capital-nth (d ∷ ds) (suc n) rest h k = capital-nth ds n rest h.1 k

capital-digit :
    (c : Char) (rest : String)
    → beq (code c) 65 ≡ false
    → capital (String.◌++◌ (String.◌∷◌ c String.[]) rest) ≡ false
capital-digit c rest h = ap capital (append.cons c String.[] rest) ∙ h

capital-hex_digit :
    (n : ℕ) (rest : String)
    → capital rest ≡ false
    → capital (String.◌++◌ (hex_digit n) rest) ≡ false
capital-hex_digit n rest = capital-nth digits n rest (
  (λ r k. capital-digit "0" r refl),
  (
    (λ r k. capital-digit "1" r refl),
    (
      (λ r k. capital-digit "2" r refl),
      (
        (λ r k. capital-digit "3" r refl),
        (
          (λ r k. capital-digit "4" r refl),
          (
            (λ r k. capital-digit "5" r refl),
            (
              (λ r k. capital-digit "6" r refl),
              (
                (λ r k. capital-digit "7" r refl),
                (
                  (λ r k. capital-digit "8" r refl),
                  (
                    (λ r k. capital-digit "9" r refl),
                    (
                      (λ r k. capital-digit "a" r refl),
                      (
                        (λ r k. capital-digit "b" r refl),
                        (
                          (λ r k. capital-digit "c" r refl),
                          (
                            (λ r k. capital-digit "d" r refl),
                            (
                              (λ r k. capital-digit "e" r refl),
                              ((λ r k. capital-digit "f" r refl), tt),
                            ),
                          ),
                        ),
                      ),
                    ),
                  ),
                ),
              ),
            ),
          ),
        ),
      ),
    ),
  ),
)

-- The encoder writes no capitals.
capital-encode_hex : (bs : Bytes) → capital (encode_hex bs) ≡ false
capital-encode_hex [] = refl
capital-encode_hex (b ∷ bs) =
    capital-hex_digit (b / 16) _
      (capital-hex_digit (b % 16) (encode_hex bs) (capital-encode_hex bs))

abbrev upper : String
upper = "ABABABABABABABABABABABABABABABABABABABABABABABABABABABABABABABAB"

upper-foreign : (k : Bytes) → upper ≢ encode_hex k
upper-foreign k e = cc (capital-encode_hex k, ap capital e)

-- The keypackage of the key that `upper` spells is on file.
abbrev posts : List (Env × Input)
posts =
    (
      at 9,
      request (
          post_keypackage record {
            device_id = upper;
            payload = text_of (1 ∷ 2 ∷ []);
            signature = text_of (replicate 64 171);
          }),
    )
    ∷ []

abbrev posted : Store
posted = run demo default_cli posts empty

on_file : count (λ r. r.device_id == text_of (replicate 32 171)) posted.keypackages ≡ 1
unfolding executable
on_file = refl

IsAuthentic-empty : IsAuthentic demo empty
IsAuthentic-empty = record { keypackages = tt; account_bundles = tt; account_logs = tt }

IsAuthentic-posted : IsAuthentic demo posted
IsAuthentic-posted =
    run-IsAuthentic demo demo-AccountLogLaws default_cli posts empty IsAuthentic-empty

IsAuthentic-after : IsAuthentic demo after
IsAuthentic-after =
    run-IsAuthentic demo demo-AccountLogLaws default_cli traffic empty IsAuthentic-empty

get_keypackage-foreign_example :
    (serve demo (at 18) (get_keypackage upper) posted).0.status ≡ not_found
get_keypackage-foreign_example =
    get_keypackage-foreign demo (at 18) posted IsAuthentic-posted upper upper-foreign refl

abbrev key_7 : String
key_7 = text_of (replicate 32 7)

abbrev fetched_keypackage : FetchKeyPackageResponse
fetched_keypackage = record { payload = text_of (1 ∷ 2 ∷ []); signature = text_of (replicate 64 7) }

fetches_keypackage :
    (serve demo (at 18) (get_keypackage key_7) after).0
    ≡ record { status = okay; body = keypackage_body fetched_keypackage }
unfolding executable
fetches_keypackage = refl

get_keypackage-IsSigned_example :
    (payload : Bytes) × (signature : Bytes) × IsSigned demo key_7 payload signature
    × (fetched_keypackage.payload ≡ demo.base64_encode payload)
    × (fetched_keypackage.signature ≡ demo.base64_encode signature)
get_keypackage-IsSigned_example =
    get_keypackage-IsSigned demo (at 18) after IsAuthentic-after key_7 fetched_keypackage
      fetches_keypackage

-- An older version than the one that `after` has on file.
abbrev replay : SubmitAccountRequest
replay = record {
  account_pub = key_7;
  payload = text_of (payload_at 5);
  signature = text_of (replicate 64 7);
}

refused : (serve demo (at 19) (post_account replay) after).0.status ≡ conflict
unfolding executable
refused = refl

refused-ne : (serve demo (at 19) (post_account replay) after).0.status ≢ no_content
refused-ne e = cc (refused, e)

serve-unchanged_example : (serve demo (at 19) (post_account replay) after).1 ≡ after
serve-unchanged_example = serve-unchanged demo (at 19) after (post_account replay) refused-ne

conflict_iff_example :
    ((serve demo (at 19) (post_account replay) after).0.status ≡ conflict)
    ↔ IsReplay demo (at 19) after replay
conflict_iff_example = conflict_iff demo (at 19) after replay (λ c. refl)
