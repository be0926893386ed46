-- ===== src/Extension/Loading.antt =====
-- Which API tables `DynamicCore::initialize` of src/dynamic_core.rs accepts, and what it makes of them.
use mathlib.Core.Path.{subst}
use duckflight_extension.Common.{
  ltb→ge, if◌then◌else◌, ℕ, ◌≤◌, ◌≡◌, ◌≢◌, Bool, true, false, Option, none, some, refl, arith, ltb,
  ◌==◌, not, sym, ap, ◌∙◌,
}
use duckflight_extension.Abi.{
  Text, is_ok, core_abi_v1, api_size, CreateOptionsV1, new_options, Returned, Handle, ApiV1,
}
use duckflight_extension.Extension.Results.{
  Result, ok, err, lift, ◌>>=◌, continue-ok, else-ok, ok-eq-ok,
}
use duckflight_extension.Extension.Core.{
  DynamicCore, validate_api_table_header, is_incomplete, checked, check_status, create_handle,
  created_of, new_core, passed, ErrorBuffer, message, failure_detail, initialize, api_header_size,
}

is_version : (v : ℕ) → not (v == core_abi_v1) ≡ false → v ≡ core_abi_v1
is_version v h = ground arith

then_ok :
    (good : Bool) (detail : Text) (t : Unit {0})
    → (if good then ok tt else err detail) ≡ ok t
    → good ≡ true
then_ok true detail t h = refl
then_ok false detail t h = cc

is_not_null : (n : ℕ) → (n == 0) ≡ false → n ≢ 0
is_not_null n h = ground arith

module _ {P : Type 0} where
  -- A table of ABI v1 with all its functions, whose `create` made the handle.
  pub record IsLoaded (table : Option (ApiV1 P)) (options : CreateOptionsV1) (state : P)
      (core : DynamicCore P) : Type 0 where
    pub here : table ≡ some core.api
    pub whole : api_size ≤ core.api.struct_size
    pub version : core.api.abi_version ≡ core_abi_v1
    pub complete : is_incomplete core.api ≡ false
    pub create : P → CreateOptionsV1 → Returned P Handle
    pub provided : core.api.create ≡ some create
    pub created : is_ok (create state options).status ≡ true
    pub handed : core.handle ≡ (create state options).value
    pub not_null : core.handle ≢ 0

  header_lem :
      (table : Option (ApiV1 P)) (api : ApiV1 P)
      → validate_api_table_header table ≡ ok api
      → (table ≡ some api) × (api_size ≤ api.struct_size) × (api.abi_version ≡ core_abi_v1)
  unfolding validate_api_table_header
  header_lem none api h = cc
  header_lem (some table) api h =
      let (long, h1) = else-ok (ltb table.struct_size api_header_size) _ _ api h in
      let (version, h2) = else-ok (not (table.abi_version == core_abi_v1)) _ _ api h1 in
      let (whole, h3) = else-ok (ltb table.struct_size api_size) _ _ api h2 in
      let e = ok-eq-ok table api h3 in
      subst
        (λ (t : ApiV1 P).
          (some table ≡ some t) × (api_size ≤ t.struct_size) × (t.abi_version ≡ core_abi_v1))
        e (refl, ltb→ge _ _ whole, is_version table.abi_version version)

  passed_lem :
      {A : Type 0} (t : Result (Unit {0})) (r : Returned P A) (a : A)
      → (passed t r).0 ≡ ok a
      → (t ≡ ok tt) × (a ≡ r.value)
  passed_lem (ok tt) r a h = (refl, sym (ok-eq-ok r.value a h))
  passed_lem (err e) r a h = absurd cc

  checked_lem :
      {A : Type 0} (r : Returned P A) (a : A)
      → (checked r).0 ≡ ok a
      → (is_ok r.status ≡ true) × (a ≡ r.value)
  unfolding checked check_status
  checked_lem r a h =
      let error : ErrorBuffer = record { bytes = r.error; required = r.required } in
      let (good, value) = passed_lem (check_status r.status error) r a h in
      (then_ok (is_ok r.status) (failure_detail r.status error (message error)) tt good, value)

  created_lem :
      (create : Option (P → CreateOptionsV1 → Returned P Handle)) (incomplete : Bool)
      (options : CreateOptionsV1) (state : P) (handle : Handle)
      → (created_of create incomplete options state).0 ≡ ok handle
      → (incomplete ≡ false)
        × ((c : P → CreateOptionsV1 → Returned P Handle) × (create ≡ some c)
            × ((checked (c state options)).0 ≡ ok handle))
  unfolding created_of
  created_lem none incomplete options state handle h = absurd cc
  created_lem (some create) true options state handle h = absurd cc
  created_lem (some create) false options state handle h = (refl, (create, refl, h))

  new_core_lem :
      (api : ApiV1 P) (detail : Text) (handle : Handle) (core : DynamicCore P)
      → new_core api detail handle ≡ ok core
      → (core.api ≡ api) × (core.handle ≡ handle) × (handle ≢ 0)
  unfolding new_core
  new_core_lem api detail handle core h =
      let (not_null, h1) = else-ok (handle == 0) _ _ core h in
      let e = ok-eq-ok _ core h1 in
      (
        sym (ap (λ (c : DynamicCore P). c.api) e),
        sym (ap (λ (c : DynamicCore P). c.handle) e),
        is_not_null handle not_null,
      )

  -- The steps of an `initialize` that succeeds.
  steps :
      (table : Option (ApiV1 P)) (info access : ℕ) (detail : Text) (state : P)
      (core : DynamicCore P)
      → (initialize table info access detail state).0 ≡ ok core
      → (api : ApiV1 P) × (handle : Handle) × (validate_api_table_header table ≡ ok api)
        × ((create_handle api info access state).0 ≡ ok handle)
        × (new_core api detail handle ≡ ok core)
  unfolding initialize
  steps table info access detail state core h =
      let (api, accepted, h1) =
        continue-ok (validate_api_table_header table)
          (λ api. create_handle api info access >>= λ handle. lift (new_core api detail handle))
          state core h in
      let (handle, made, h2) =
        continue-ok (create_handle api info access state).0
          (λ handle. lift (new_core api detail handle)) (create_handle api info access state).1 core
          h1 in
      (api, handle, accepted, made, h2)

  -- A core is loaded only from a table that is not null, has the size and the version of ABI v1 and all
  -- five functions, by a `create` that succeeded on the extension's options with a handle that is not
  -- null; that handle and that table are what it keeps.
  pub initialize-IsLoaded :
      (table : Option (ApiV1 P)) (info access : ℕ) (detail : Text) (state : P)
      (core : DynamicCore P)
      → (initialize table info access detail state).0 ≡ ok core
      → IsLoaded table (new_options info access 16) state core
  unfolding create_handle
  initialize-IsLoaded table info access detail state core h =
      let (api, handle, accepted, made, kept) = steps table info access detail state core h in
      let (here, whole, version) = header_lem table api accepted in
      let (complete, (create, provided, created)) =
        created_lem api.create (is_incomplete api) (new_options info access 16) state handle made in
      let (good, value) = checked_lem (create state (new_options info access 16)) handle created in
      let (same_api, same_handle, not_null) = new_core_lem api detail handle core kept in
      record {
        here = here ∙ ap (λ (t : ApiV1 P). some t) (sym same_api);
        whole = subst (λ (t : ApiV1 P). api_size ≤ t.struct_size) (sym same_api) whole;
        version = ap (λ (t : ApiV1 P). t.abi_version) same_api ∙ version;
        complete = ap (λ (t : ApiV1 P). is_incomplete t) same_api ∙ complete;
        create = create;
        provided = ap (λ (t : ApiV1 P). t.create) same_api ∙ provided;
        created = good;
        handed = same_handle ∙ value;
        not_null = λ e. not_null (sym same_handle ∙ e);
      }
