-- ===== src/Profile/Unique.antt =====
-- What the check of a registry assures.
use sshw.Base.{
  Bool, true, Text, [], ◌∷◌, none, some, ◌≡◌, ◌≢◌, subst, arith, AllOf, text_eq, Map, get, insert,
  get-insert, contains_key,
}
use sshw.Errors.{ok, >>=-eq-ok}
use sshw.Profile.{
  profile_registry_version, ProfileEntry, ProfileRegistry, validate_profile_name,
  ensure_valid_profile_id, validate_entries, validate_registry, check_version, check_default,
  check_home, claim_id,
}

-- No two entries have one id.
abbrev pub UniqueIds : Map ProfileEntry → Type 0
UniqueIds [] = Unit
UniqueIds ((name, entry) ∷ profiles) =
    AllOf (λ (other, e). e.id ≢ entry.id) profiles × UniqueIds profiles

module _ (is_absolute : Text → Bool) where
  -- An entry whose name, id and home are in order.
  pub record IsSound (name : Text) (entry : ProfileEntry) : Type 0 where
    pub name_valid : validate_profile_name name ≡ ok tt
    pub id_valid : ensure_valid_profile_id entry.id ≡ ok tt
    pub home_absolute : is_absolute entry.home ≡ true

  -- The ids that were claimed before do not come again.
  abbrev AreFresh : Map Text → Map ProfileEntry → Type 0
  AreFresh ids = AllOf (λ (name, entry). get entry.id ids ≡ none)

  fresh_of_insert :
      (id name : Text) (ids : Map Text) (profiles : Map ProfileEntry)
      → get id ids ≡ none
      → AreFresh (insert id name ids) profiles
      → AllOf (λ (other, e). e.id ≢ id) profiles × AreFresh ids profiles
  fresh_of_insert id name ids [] n h = (tt, tt)
  fresh_of_insert id name ids ((other, e) ∷ profiles) n (f, h) =
      let (apart, fresh) = fresh_of_insert id name ids profiles n h in
      (
        (λ q. ground (arith, get-insert id e.id name ids), apart),
        (ground (arith, get-insert id e.id name ids), fresh),
      )

  checked_entries :
      (profiles : Map ProfileEntry) (ids : Map Text)
      → validate_entries is_absolute profiles ids ≡ ok tt
      → AreFresh ids profiles
        × UniqueIds profiles
        × AllOf (λ (name, entry). IsSound name entry) profiles
  unfolding validate_entries claim_id check_home
  checked_entries [] ids h = (tt, tt, tt)
  checked_entries ((name, entry) ∷ profiles) ids h =
      let (u, n, k) = >>=-eq-ok (validate_profile_name name) _ h in
      let (v, i, l) = >>=-eq-ok (ensure_valid_profile_id entry.id) _ k in
      let (w, a, m) = >>=-eq-ok (check_home is_absolute entry.home) _ l in
      let (claimed, c, r) = >>=-eq-ok (claim_id is_absolute entry.id name ids) _ m in
      let f : get entry.id ids ≡ none = ground arith in
      let q : claimed ≡ insert entry.id name ids = ground arith in
      let (fresh, unique, sound) = checked_entries profiles claimed r in
      let (apart, others) =
        fresh_of_insert entry.id name ids profiles f (subst (λ c. AreFresh c profiles) q fresh) in
      (
        (f, others),
        (apart, unique),
        (record { name_valid = n; id_valid = i; home_absolute = ground arith }, sound),
      )

  -- In a registry that passes the check every profile has a valid name and id and an absolute home,
  -- no two have one id, and the default is there.
  pub validated_registry :
      (registry : ProfileRegistry)
      → validate_registry is_absolute registry ≡ ok tt
      → (registry.version ≡ profile_registry_version)
        × UniqueIds registry.profiles
        × AllOf (λ (name, entry). IsSound name entry) registry.profiles
        × ((name : Text)
            → registry.default ≡ some name
            → contains_key name registry.profiles ≡ true)
  unfolding validate_registry check_version check_default
  validated_registry registry h =
      let (u, v, k) = >>=-eq-ok (check_version is_absolute registry.version) _ h in
      let (w, d, l) =
        >>=-eq-ok (check_default is_absolute registry.default registry.profiles) _ k in
      let (fresh, unique, sound) = checked_entries registry.profiles [] l in
      (ground arith, unique, sound, λ name e. ground arith)
