-- ===== src/Secure/Once.antt =====
-- What asking for secure directories leaves: the runner for new requests of
-- core/allocation/utils_/secure_dir_utils/new_directory.py.
use coldfront.Base.{
  ℕ, ◌≡◌, ◌≢◌, refl, sym, ◌⊎◌, inl, inr, String, Bool, true, false, Option, none, List, [], ◌∷◌,
  ◌++◌, any, map, keep, is_nonempty, Member, Result, ok, err, Exception, arith, Bool-cases,
  Result-cases, other_error, str_eq, eq_iff, ◌>>=◌,
}
use text.Mathlib.Text.{starts_with}
use coldfront.Orm.{Orm}
use coldfront.Orm.Keys.{Member-keep, saved-Member}
use coldfront.AllowanceInterface.{Site, allowance_from_project}
use coldfront.Tables.{Project, Value}
use coldfront.Renewals.{is_active_project}
use coldfront.Secure.{SecureWorld, SecureDirRequest}
use coldfront.Secure.Directories

pub nonempty-Member : {R : Type 0} (x : R) (ts : List R) → Member x ts → is_nonempty ts ≡ true
nonempty-Member x [] m = absurd m
nonempty-Member x (t ∷ ts) m = refl

any-map :
    {R : Type 0} (f : R → String) (s : String) (x : R) (ts : List R)
    → Member x ts
    → str_eq (f x) s ≡ true
    → any (λ n. str_eq n s) (map f ts) ≡ true
any-map f s x [] m e = absurd m
any-map f s x (t ∷ ts) (inl q) e = rw (sym q, e) refl
any-map f s x (t ∷ ts) (inr m) e = ground (arith, any-map f s x ts m e)

any-append_right :
    {R : Type 0} (p : R → Bool) (xs ys : List R) → any p ys ≡ true → any p (xs ++ ys) ≡ true
any-append_right p [] ys h = h
any-append_right p (x ∷ xs) ys h = ground (arith, any-append_right p xs ys h)

module _ (orm : Orm) (site : Site) where
  module _ (p : Project) (world : SecureWorld)
      (held : Directories.is_free orm site p world ≡ false) where
    not_under : (a : _) → Directories.eligible_under orm site p a world ≢ ok true
    not_under a e = elim (Bool-cases (Directories.is_eligible_name a)) [
      | inr n ↦ let k : ok false ≡ ok true = rw n at e in cc
      | inl n ↦ elim (Result-cases (Directories.eligible_codes orm site)) [
        | inl (codes, c) ↦ absurd (ground (arith, rw (n, c, held) at e))
        | inr (x, c) ↦ absurd (ground (arith, rw (n, c) at e))
      ]
    ]

    not_with : (q : _) → Directories.eligible_with orm site p q world ≢ ok true
    not_with (ok a) e = not_under a e
    not_with (err x) e = ground (arith, e)

    -- A project that is not free cannot ask for a directory.
    pub not_free : Directories.is_project_eligible_for_secure_dirs orm site p world ≢ ok true
    unfolding Directories.is_project_eligible_for_secure_dirs
    not_free e = elim (Bool-cases (is_active_project p.status)) [
      | inl n ↦ not_with (allowance_from_project site p.name) (rw n at e)
      | inr n ↦ let k : ok false ≡ ok true = rw n at e in cc
    ]

  module _ (p : Project) (requester : ℕ) (name department : String) (consultation : Option String)
      (world : SecureWorld) where
    abbrev asked : Result (Unit {0}) × SecureWorld
    asked = Directories.request_directory orm site p requester name department consultation world

    abbrev made : SecureDirRequest
    made = Directories.new_request orm site p requester name department consultation world

    abbrev with_made : SecureWorld
    with_made = Directories.save_request orm made world

    made-Member : Member made with_made.requests
    made-Member = saved-Member orm (λ (r : SecureDirRequest). r.pk) made world.requests

    made_not_free : Directories.is_free orm site p with_made ≡ false
    made_not_free =
        let test : SecureDirRequest → Bool = Directories.is_request_of p.pk in
        let kept = Member-keep test with_made.requests made made-Member (ground arith) in
        let held : Directories.has_request orm p.pk with_made ≡ true =
          rw orm.filter_lem (nonempty-Member made _ kept) in
        ground (arith, held)

    made_taken :
        (basename : Value → String)
        → Directories.is_secure_directory_name_suffix_available orm basename
            (Directories.get_directory_name_suffix name)
            none
            with_made
          ≢ ok true
    unfolding Directories.is_secure_directory_name_suffix_available
    made_taken basename e =
        let suffix = Directories.get_directory_name_suffix name in
        let of_name : SecureDirRequest → String =
          λ r. Directories.get_directory_name_suffix r.directory_name in
        let test : SecureDirRequest → Bool = Directories.is_other orm basename none in
        let kept = Member-keep test with_made.requests made made-Member refl in
        let requested : any (λ s. str_eq s suffix)
              (Directories.requested_suffixes orm basename none with_made)
            ≡ true =
          rw orm.filter_lem (
            any-map of_name suffix made (keep test with_made.requests) kept
              ((eq_iff suffix suffix).1 refl)) in
        let used =
          any-append_right (λ s. str_eq s suffix)
            (Directories.existing_suffixes orm basename with_made.db)
            (Directories.requested_suffixes orm basename none with_made) requested in
        elim (Bool-cases (starts_with suffix Directories.name_prefix)) [
          | inl q ↦ absurd (ground (arith, rw q at e))
          | inr q ↦ absurd (ground (arith, rw (q, used) at e))
        ]

    -- Asking for secure directories either raises and changes nothing, or is done for a project that
    -- was eligible: it is not eligible afterwards, and the name that it asked for is not available
    -- to another.
    pub request_directory-once :
        (basename : Value → String)
        → ((asked.0 ≡ ok tt)
            × (Directories.is_project_eligible_for_secure_dirs orm site p world ≡ ok true)
            × (Directories.is_project_eligible_for_secure_dirs orm site p asked.1 ≢ ok true)
            × (Directories.is_secure_directory_name_suffix_available orm basename
                  (Directories.get_directory_name_suffix name)
                  none
                  asked.1
                ≢ ok true))
          ⊎ ((e : Exception) × (asked ≡ (err e, world)))
    unfolding Directories.request_directory
    request_directory-once basename =
        elim (Result-cases (Directories.is_project_eligible_for_secure_dirs orm site p world)) [
          | inr (x, e) ↦ inr (x, rw (◌>>=◌, e) refl)
          | inl (false, e) ↦ inr (other_error, rw (◌>>=◌, e) refl)
          | inl (true, e) ↦
              inl (
                rw (◌>>=◌, e) (refl, refl, not_free p with_made made_not_free, made_taken basename))
        ]
