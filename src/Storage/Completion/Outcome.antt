-- ===== src/Storage/Completion/Outcome.antt =====
-- What `complete_fsa_request` of plugins/faculty_storage_allocations/api/views.py leaves.
use coldfront.Base.{
  ℕ, ◌==◌, String, true, Option, none, some, truthy, Result, ok, ◌≡◌, ◌≢◌, ◌⊎◌, inl, inr, refl, sym,
  arith, Result-cases, Bool-cases, ok_inj, ap, ==_iff, fsa_request,
}
use coldfront.Orm.{Orm}
use coldfront.Orm.Lookup.{get-save_self, get-pass}
use coldfront.Storage.{FsaStatus, SetupStatus, FsaRequest, Store, is_processing}
use coldfront.Storage.Service.{update_setup_state}
use coldfront.Storage.Completion.{
  Response, completed, set_up, complete_request, complete_with, complete_found, or_none,
  validate_directory_name, complete_fsa_request,
}
use coldfront.Storage.Directory.{}

module _ (orm : Orm) (now : ℕ) (iso : ℕ → String) (path : String → String) (today : ℕ) where
  abbrev set_up_row : FsaRequest → String → FsaRequest
  set_up_row r name = record r {
    state = record r.state {
      setup = record { status = SetupStatus.complete; directory_name = name; timestamp = iso now };
    };
    modified = now;
  }

  -- The request as its completion leaves it.
  abbrev pub completed_row : FsaRequest → String → FsaRequest
  completed_row r name = record (set_up_row r name) {
    status = FsaStatus.approved_complete;
    completion_time = some now;
  }

  set_up_rows :
      (r : FsaRequest) (name : String) (store : Store) (c : FsaRequest)
      → (set_up orm now iso path today r name store).0 ≡ ok c
      → (c ≡ completed_row r name)
        × ((set_up orm now iso path today r name store).1.requests
            ≡ orm.save
                (λ x. x.pk)
                (completed_row r name)
                (orm.save (λ x. x.pk) (set_up_row r name) store.requests))
  unfolding update_setup_state
  set_up_rows r name store c h = ground (arith, h)

  set_up_stored :
      (r old : FsaRequest) (name : String) (store : Store) (c : FsaRequest)
      → orm.get fsa_request (λ x. x.pk == r.pk) store.requests ≡ ok old
      → (set_up orm now iso path today r name store).0 ≡ ok c
      → orm.get fsa_request
          (λ x. x.pk == r.pk)
          (set_up orm now iso path today r name store).1.requests
        ≡ ok (completed_row r name)
  set_up_stored r old name store c g h = rw (set_up_rows r name store c h).1 (
      get-save_self orm fsa_request (λ x. x.pk) (completed_row r name) (set_up_row r name) _
        (get-save_self orm fsa_request (λ x. x.pk) (set_up_row r name) old store.requests g))

  -- What the endpoint did: it completed a request that was processing, under the name of the body
  -- without the blanks around it, or it changed nothing.
  abbrev pub Outcome :
      (String → String) → ℕ → Option String → Store → Result Response × Store → Type 0
  Outcome strip pk field store run =
      ((run.0 ≢ ok completed) × (run.1 ≡ store))
      ⊎ ((run.0 ≡ ok completed)
          × (r : FsaRequest) × (name : String) × (orm.get fsa_request (λ x. x.pk == pk)
                store.requests
              ≡ ok r)
          × (is_processing r.status ≡ true)
          × (field ≡ some name)
          × (truthy (strip name) ≡ true)
          × (orm.get fsa_request (λ x. x.pk == pk) run.1.requests
              ≡ ok (completed_row r (strip name))))

  complete_with_outcome :
      (r : FsaRequest) (name : Option String) (store : Store)
      → orm.get fsa_request (λ x. x.pk == r.pk) store.requests ≡ ok r
      → is_processing r.status ≡ true
      → (((complete_with orm now iso path today r name store).0 ≢ completed)
          × ((complete_with orm now iso path today r name store).1 ≡ store))
        ⊎ (((complete_with orm now iso path today r name store).0 ≡ completed)
            × (s : String) × (name ≡ some s)
            × (orm.get fsa_request
                  (λ x. x.pk == r.pk)
                  (complete_with orm now iso path today r name store).1.requests
                ≡ ok (completed_row r s)))
  unfolding complete_request
  complete_with_outcome r none store g p = inl ((λ e. cc), refl)
  complete_with_outcome r (some s) store g p =
      elim (Result-cases (set_up orm now iso path today r s store).0) [
        | inl (c, h) ↦
            inr
              (ground (arith, h, p), s, refl, ground (arith, h, p, set_up_stored r r s store c g h))
        | inr (e, h) ↦ inl ground (arith, h, p)
      ]

  complete_found_outcome :
      (r : FsaRequest) (name : Option String) (store : Store)
      → orm.get fsa_request (λ x. x.pk == r.pk) store.requests ≡ ok r
      → (((complete_found orm now iso path today r name store).0 ≢ completed)
          × ((complete_found orm now iso path today r name store).1 ≡ store))
        ⊎ (((complete_found orm now iso path today r name store).0 ≡ completed)
            × (is_processing r.status ≡ true)
            × (s : String) × (name ≡ some s)
            × (orm.get fsa_request
                  (λ x. x.pk == r.pk)
                  (complete_found orm now iso path today r name store).1.requests
                ≡ ok (completed_row r s)))
  complete_found_outcome r name store g = elim (Bool-cases (is_processing r.status)) [
    | inl p ↦ rw p (elim (complete_with_outcome r name store g p) [
      | inl same ↦ inl same
      | inr (c, s, e, row) ↦ inr (c, refl, s, e, row)
    ])
    | inr p ↦ rw p (inl (λ e. cc, refl))
  ]

  valid_name :
      (strip : String → String) (field : Option String) (s : String)
      → or_none field (validate_directory_name strip) ≡ some s
      → (name : String) × (field ≡ some name) × (truthy (strip name) ≡ true) × (strip name ≡ s)
  valid_name strip none s h = cc
  valid_name strip (some f) s h = (f, refl, ground (arith, h), ground (arith, h))

  complete_run :
      (strip : String → String) (field : Option String) (store : Store) (r : FsaRequest)
      → orm.get fsa_request (λ x. x.pk == r.pk) store.requests ≡ ok r
      → complete_fsa_request orm now iso path today strip r.pk field store ≡ (
        ok
            (complete_found orm now iso path today r
              (or_none field (validate_directory_name strip))
              store).0,
        (complete_found orm now iso path today r
            (or_none field (validate_directory_name strip))
            store).1,
      )
  unfolding complete_fsa_request
  complete_run strip field store r g = rw (complete_fsa_request, g) refl

  complete_known :
      (strip : String → String) (field : Option String) (store : Store) (r : FsaRequest)
      → orm.get fsa_request (λ x. x.pk == r.pk) store.requests ≡ ok r
      → Outcome strip r.pk field store
          (complete_fsa_request orm now iso path today strip r.pk field store)
  complete_known strip field store r g =
      rw (complete_run strip field store r g)
        (elim (complete_found_outcome r (or_none field (validate_directory_name strip)) store g) [
          | inl (n, same) ↦ inl ((λ e. n (ok_inj _ _ e)), same)
          | inr (c, p, s, e, row) ↦
              let (name, given, written, same) = valid_name strip field s e in
              inr (ap (λ x. ok x) c, r, name, g, p, given, written, rw same row)
        ])

  -- The endpoint either completes the request of that key or changes nothing and does not answer that
  -- it did. In the first case the request was processing, the body gives a name of a directory that is
  -- not blank, and the request is found as it was, but with the status complete, this moment as its
  -- times of completion, setup and modification, its setup complete, and the name of its directory that of the body without the
  -- blanks around it.
  pub complete_fsa_request-Outcome :
      (strip : String → String) (pk : ℕ) (field : Option String) (store : Store)
      → Outcome strip pk field store
          (complete_fsa_request orm now iso path today strip pk field store)
  unfolding complete_fsa_request
  complete_fsa_request-Outcome strip pk field store =
      elim (Result-cases (orm.get fsa_request (λ x. x.pk == pk) store.requests)) [
        | inl (r, g) ↦
            let e : r.pk ≡ pk = (==_iff r.pk pk).0 (get-pass orm _ _ store.requests r g) in
            rw (sym e) (complete_known strip field store r (rw (sym e) at g))
        | inr (e, g) ↦ ground (arith, g)
      ]
