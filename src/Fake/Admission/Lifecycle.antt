-- ===== src/Fake/Admission/Lifecycle.antt =====
-- The admission methods create at most jobs.
use outlabs_taskq.Prelude.{ℕ, refl, Bool, true, false, String, Option, none, some, arith, nat_eq}
use outlabs_taskq.Effects.{modify}
use outlabs_taskq.Effects.Keeps.{Keeps}
use outlabs_taskq.Protocol.{Json, AdmissionJob}
use outlabs_taskq.Fake.State.{Admission, AdmissionState, Reading}
use outlabs_taskq.Fake.Enqueue.Lifecycle.{enqueue-Keeps}
use outlabs_taskq.Fake.Admission.{
  ReserveRequest, set_admission, draw_handle, stored_receipt, reserve_free, reserve_held,
  reserve_taken, reserve_at, reserve_admission, finish_reserved, finish_at, finish_admission,
  cancel_unless_expired, cancel_reserved, cancel_at, cancel_admission,
}
use outlabs_taskq.Fake.Lifecycle.{Evolves, Mutates, Mutates-IsPreorder}
use outlabs_taskq.Fake.Lifecycle.Mutation.{mutation_rules, same_jobs}
use outlabs_taskq.Fake.Lifecycle.Creation.{creation_rules}

set_admission-Keeps :
    (identity : String × String) (a : Admission) → Keeps Mutates (modify (set_admission identity a))
set_admission-Keeps identity a = record { at = λ c. same_jobs c _ refl (omega arith) refl }

draw_handle-Keeps : (h : Option ℕ) → Keeps Mutates (draw_handle h)
unfolding draw_handle
draw_handle-Keeps none = record { at = λ c. same_jobs c _ refl (omega arith) refl }
draw_handle-Keeps (some h) = record { at = Mutates-IsPreorder.refl_at }

stored_receipt-Keeps : (a : Admission) → Keeps Mutates (stored_receipt a)
unfolding stored_receipt
stored_receipt-Keeps a = search mutation_rules depth 9

reserve_free-Keeps :
    (identity : String × String) (r : ReserveRequest) (handle now : ℕ)
    → Keeps Mutates (reserve_free identity r handle now)
unfolding reserve_free
reserve_free-Keeps identity r handle now = search (mutation_rules, set_admission-Keeps) depth 9

reserve_held-Keeps :
    (handle now : ℕ) (a : Admission) (s : AdmissionState)
    → Keeps Mutates (reserve_held handle now a s)
unfolding reserve_held
reserve_held-Keeps handle now a AdmissionState.admitted =
    search (mutation_rules, stored_receipt-Keeps) depth 9
reserve_held-Keeps handle now a _ = record {
  at = λ c. ground (arith, Mutates-IsPreorder.refl_at c);
}

reserve_taken-Keeps :
    (identity : String × String) (r : ReserveRequest) (handle now : ℕ) (a : Admission) (b : Bool)
    → Keeps Mutates (reserve_taken identity r handle now a b)
unfolding reserve_taken
reserve_taken-Keeps identity r handle now a true = reserve_free-Keeps identity r handle now
reserve_taken-Keeps identity r handle now a false =
    search (mutation_rules, reserve_held-Keeps) depth 9

reserve_at-Keeps :
    (identity : String × String) (r : ReserveRequest) (handle now : ℕ) (o : Option Admission)
    → Keeps Mutates (reserve_at identity r handle now o)
unfolding reserve_at
reserve_at-Keeps identity r handle now none = reserve_free-Keeps identity r handle now
reserve_at-Keeps identity r handle now (some a) = reserve_taken-Keeps identity r handle now a _

pub reserve_admission-Keeps :
    (now : Reading) (queue : String) (r : ReserveRequest)
    → Keeps Mutates (reserve_admission now queue r)
unfolding reserve_admission
reserve_admission-Keeps now queue r =
    search (mutation_rules, draw_handle-Keeps, reserve_at-Keeps) depth 16

finish_reserved-Keeps :
    (now : Reading) (identity : String × String) (a : Admission) (job : AdmissionJob)
    (receipt : Json) (hash : String)
    → Keeps Evolves (finish_reserved now identity a job receipt hash)
unfolding finish_reserved
finish_reserved-Keeps now identity a job receipt hash =
    search (creation_rules, set_admission-Keeps, enqueue-Keeps) depth 12

finish_at-Keeps :
    (now : Reading) (identity : String × String) (a : Admission) (job : AdmissionJob)
    (receipt : Json) (hash : String) (s : AdmissionState)
    → Keeps Evolves (finish_at now identity a job receipt hash s)
unfolding finish_at
finish_at-Keeps now identity a job receipt hash AdmissionState.reserved =
    finish_reserved-Keeps now identity a job receipt hash
finish_at-Keeps now identity a job receipt hash AdmissionState.admitted =
    search (creation_rules, stored_receipt-Keeps) depth 9
finish_at-Keeps now identity a job receipt hash AdmissionState.cancelled = search creation_rules

pub finish_admission-Keeps :
    (now : Reading) (queue key : String) (handle : ℕ) (job : AdmissionJob) (receipt : Json)
    → Keeps Evolves (finish_admission now queue key handle job receipt)
unfolding finish_admission
finish_admission-Keeps now queue key handle job receipt =
    search (creation_rules, finish_at-Keeps) depth 16

cancel_unless_expired-Keeps :
    (identity : String × String) (a : Admission) (b : Bool)
    → Keeps Mutates (cancel_unless_expired identity a b)
unfolding cancel_unless_expired
cancel_unless_expired-Keeps identity a true = search mutation_rules
cancel_unless_expired-Keeps identity a false = search (mutation_rules, set_admission-Keeps) depth 9

cancel_reserved-Keeps :
    (now : Reading) (identity : String × String) (a : Admission)
    → Keeps Mutates (cancel_reserved now identity a)
unfolding cancel_reserved
cancel_reserved-Keeps now identity a = search (mutation_rules, cancel_unless_expired-Keeps)

cancel_at-Keeps :
    (now : Reading) (identity : String × String) (a : Admission) (s : AdmissionState)
    → Keeps Mutates (cancel_at now identity a s)
unfolding cancel_at
cancel_at-Keeps now identity a AdmissionState.reserved = cancel_reserved-Keeps now identity a
cancel_at-Keeps now identity a AdmissionState.admitted =
    search (mutation_rules, stored_receipt-Keeps) depth 9
cancel_at-Keeps now identity a AdmissionState.cancelled = search mutation_rules

pub cancel_admission-Keeps :
    (now : Reading) (queue key : String) (handle : ℕ)
    → Keeps Mutates (cancel_admission now queue key handle)
unfolding cancel_admission
cancel_admission-Keeps now queue key handle = search (mutation_rules, cancel_at-Keeps) depth 16
