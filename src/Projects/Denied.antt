-- ===== src/Projects/Denied.antt =====
-- The denial of requests for new projects: ../Projects.
use coldfront.Base.{
  ℕ, ◌==◌, ◌≡◌, refl, false, ok, err, project_request, renewal_request, value_error, atomic-fail,
}
use coldfront.Orm.{Orm}
use coldfront.World.{RenewalRequest}
use coldfront.Requests.Steps.{RequestStatus}
use coldfront.Requests.Savio.{denial_reason, is_denied_request}
use coldfront.Projects.{
  SavioProject, VectorProject, ProjectWorld, vector, run_denial,
  deny_associated_allocation_renewal_request, is_for, deny_associated, deny_renewal_of, deny_steps,
  deny_project, save_request, with_status,
}

module _ (orm : Orm) (now today : ℕ) where
  mistaken :
      (k : ℕ) (r : SavioProject) (s : RenewalRequest) (w : ProjectWorld)
      → orm.get project_request (λ (x : SavioProject). x.pk == k) w.savio_requests ≡ ok r
      → orm.get renewal_request (is_for orm now today r.pk) w.world.renewal_requests ≡ ok s
      → is_denied_request r.review.status ≡ false
      → deny_associated_allocation_renewal_request orm now today k w ≡ (err value_error, w)
  unfolding deny_associated_allocation_renewal_request denial_reason
  mistaken k r s w found referred undenied =
      rw (found, deny_associated) (rw (referred, deny_renewal_of) (rw undenied refl))

  -- The denial of a Vector request fails, and changes nothing, where its key is also that of a Savio
  -- request which is not denied and which one renewal request refers to.
  pub run_denial-mistaken :
      (v : VectorProject) (r : SavioProject) (s : RenewalRequest) (w : ProjectWorld)
      → orm.get project_request (λ (x : SavioProject). x.pk == v.pk) w.savio_requests ≡ ok r
      → orm.get renewal_request (is_for orm now today r.pk) w.world.renewal_requests ≡ ok s
      → is_denied_request r.review.status ≡ false
      → run_denial orm now today (vector v) w ≡ (err value_error, w)
  unfolding run_denial
  run_denial-mistaken v r s w found referred undenied =
      let t =
        save_request orm (with_status RequestStatus.denied (vector v))
          (deny_project orm now today v.project w) in
      atomic-fail (deny_steps orm now today (vector v)) w t value_error
        (mistaken v.pk r s t found referred undenied)
