-- ===== src/Handlers/Fetching.antt =====
-- What a GET serves: verified bundles, under the spelling of the key that the store files them by.
use mathlib.Core.Option
use chat_store.Common.{
  String, ◌≡◌, ◌≢◌, refl, sym, subst, ◌∙◌, inl, inr, eq_iff, none, some, [], All-mem, All-imp,
  Bool-false, Option-cases, find, find-mem, select, select-none_of_All,
}
use chat_store.Common.Exec.{ok, Result-cases}
use chat_store.Rust.Bytes.{Bytes}
use chat_store.Crates.{Crates}
use chat_store.Store.{Store, Env, StoredKeyPackageBundle, fetch}
use chat_store.Store.KeyPackages.{newest, of_device, latest}
use chat_store.Store.KeyPackages.Latest.{latest-IsNewest}
use chat_store.Store.Accounts.{of_account, get_account}
use chat_store.Bundle.{key_hex}
use chat_store.Service.Runs.Authenticity.{IsSigned, SignedKeyPackage, SignedAccount, IsAuthentic}
use chat_store.Handlers.Errors.{okay, not_found}
use chat_store.Handlers.Endpoints.{
  FetchKeyPackageResponse, FetchAccountResponse, get_keypackage, get_account_bundle,
  keypackage_body, account_body, fetch_key_package, fetch_account, handle, serve,
}

module _ (crates : Crates) (env : Env) (s : Store) (authentic : IsAuthentic crates s) where
  latest-IsSigned :
      (id : String) (b : StoredKeyPackageBundle)
      → (latest env id s).0 ≡ ok (some b)
      → IsSigned crates id b.payload b.signature
  latest-IsSigned id b h =
      let (r, m, owner, same, _) = latest-IsNewest env id s b h in
      let signed = All-mem (SignedKeyPackage crates) m authentic.keypackages in
      rw same (subst (λ i. IsSigned crates i r.payload r.signature) owner signed)

  -- In a store of verified rows, a keypackage that is served is the base64 of a payload and of its
  -- signature, which verifies under the key that the requested id spells.
  pub get_keypackage-IsSigned :
      (id : String) (response : FetchKeyPackageResponse)
      → (serve crates env (get_keypackage id) s).0
        ≡ record { status = okay; body = keypackage_body response }
      → (payload signature : Bytes) × IsSigned crates id payload signature
        × (response.payload ≡ crates.base64_encode payload)
        × (response.signature ≡ crates.base64_encode signature)
  unfolding serve handle fetch_key_package
  get_keypackage-IsSigned id response h = elim (Result-cases (latest env id s).0) [
    | inr (e, failed) ↦ cc (rw failed at h)
    | inl (none, found) ↦ cc (rw found at h)
    | inl (some b, found) ↦
        (b.payload, b.signature, latest-IsSigned id b found, cc (rw found at h), cc (rw found at h))
  ]

  -- In such a store, an account bundle that is served is the base64 of a payload and of its
  -- signature, which verifies under the key that the requested id spells.
  get_account-IsSigned :
      (id : String) (response : FetchAccountResponse)
      → (serve crates env (get_account_bundle id) s).0
        ≡ record { status = okay; body = account_body response }
      → (payload signature : Bytes) × IsSigned crates id payload signature
        × (response.payload ≡ crates.base64_encode payload)
        × (response.signature ≡ crates.base64_encode signature)
  unfolding serve handle fetch_account get_account Option.map
  get_account-IsSigned id response h = elim (Option-cases (env.fault fetch)) [
    | inr (e, failed) ↦ cc (rw failed at h)
    | inl fine ↦ elim (Option-cases (find (of_account id) s.account_bundles)) [
      | inl missing ↦ cc (rw (fine, missing) at h)
      | inr (r, found) ↦
          let (m, owner) = find-mem (of_account id) s.account_bundles found in
          let signed = (All-mem (SignedAccount crates) m authentic.account_bundles).0 in
          (
            r.payload,
            r.signature,
            subst (λ i. IsSigned crates i r.payload r.signature) ((eq_iff _ _).0 owner) signed,
            cc (rw (fine, found) at h),
            cc (rw (fine, found) at h),
          )
    ]
  ]

  -- Nothing is filed under an id that is not the hex of a key.
  none-listed :
      (id : String)
      → ((k : Bytes) → id ≢ crates.hex_encode k)
      → select (of_device id) s.keypackages ≡ []
  unfolding key_hex
  none-listed id foreign = select-none_of_All (of_device id) s.keypackages (
      All-imp s.keypackages
        (λ r signed.
          Bool-false (of_device id r)
            (λ own. foreign signed.bundle.key (sym ((eq_iff _ _).0 own) ∙ signed.id_of_key)))
        authentic.keypackages)

  -- In such a store, a GET of a keypackage under an id that is not the text that `hex::encode`
  -- gives of some bytes, such as one in upper case, is answered 404 by a database that answers,
  -- whatever has been submitted under that id.
  pub get_keypackage-foreign :
      (id : String)
      → ((k : Bytes) → id ≢ crates.hex_encode k)
      → env.fault fetch ≡ none
      → (serve crates env (get_keypackage id) s).0.status ≡ not_found
  unfolding serve handle fetch_key_package latest newest
  get_keypackage-foreign id foreign fine = rw (fine, none-listed id foreign) refl
