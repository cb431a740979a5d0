-- ===== src/Secure/Histories.antt =====
-- The life of requests for secure directories, as the views of
-- core/allocation/views_/secure_dir_views/new_directory/ let it go on.
use coldfront.Base.{
  ℕ, ◌≡◌, inl, inr, String, true, List, [], ◌∷◌, truthy, Member, ok, arith, Result-cases,
}
use coldfront.Orm.{Orm}
use coldfront.AllowanceInterface.{Site}
use coldfront.Secure.{
  SecureWorld, DenialReason, denial_reason, SecureDirRequest, has_denial, SecureDirStatus,
  secure_dir_request_state_status,
}
use coldfront.Secure.Directories.{Paths}
use coldfront.Secure.Reviews.{}
use coldfront.Secure.Operations.{Operation, AllConsistent, action, run_all}
use coldfront.Secure.Kept.{action-AllConsistent}

module _ (orm : Orm) (site : Site) (paths : Paths) (iso : ℕ → String) where
  -- Whatever is asked, reviewed, denied, undenied and approved, in any order and at any times, each
  -- request is consistent if all were at first: it is complete, with every step of its checklist
  -- done, or has the status that follows from its reviews.
  pub run_all-AllConsistent :
      ((now : ℕ) → truthy (iso now) ≡ true)
      → (os : List Operation) (world : SecureWorld) → AllConsistent world
      → AllConsistent (run_all orm site paths iso os world)
  unfolding run_all
  run_all-AllConsistent written [] world all = all
  run_all-AllConsistent written (o ∷ os) world all =
      run_all-AllConsistent written os (action orm site paths iso o world).1
        (action-AllConsistent orm site paths iso written o world all)

  reason_of_denied :
      (r : SecureDirRequest)
      → has_denial r.state ≡ true
      → r.status ≡ SecureDirStatus.denied
      → (d : DenialReason) × (denial_reason r ≡ ok d)
  unfolding denial_reason
  reason_of_denied r h e = elim (Result-cases (denial_reason r)) [
    | inl found ↦ found
    | inr (x, k) ↦ absurd (ground (arith, k, h, e))
  ]

  -- Whatever is asked, reviewed, denied, undenied and approved, in any order and at any times, each
  -- request that is then denied has a reason for its denial to show, if the requests were
  -- consistent at first.
  pub run_all-denial_reason :
      ((now : ℕ) → truthy (iso now) ≡ true)
      → (os : List Operation) (world : SecureWorld) (r : SecureDirRequest) → AllConsistent world
      → Member r (run_all orm site paths iso os world).requests
      → r.status ≡ SecureDirStatus.denied
      → (d : DenialReason) × (denial_reason r ≡ ok d)
  unfolding secure_dir_request_state_status
  run_all-denial_reason written os world r all m e =
      elim (run_all-AllConsistent written os world all r m) [
        | inl (complete, _) ↦ cc
        | inr same ↦ reason_of_denied r (ground (arith, same, e)) e
      ]
