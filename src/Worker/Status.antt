-- ===== src/Worker/Status.antt =====
-- internal/worker: what `Process` of the pipeline's workers does when a step fails. The document
-- becomes `failed`, and where that write fails too, its error is the one that is returned.
pub mod Marking
use creel.Base.{String, Bool, true, false}
use creel.Exec.{Exec, Result, ok, err, pure, fail, or_fail, ◌>>=◌, ◌>>◌}
use creel.Store.Rows.{failed}
use creel.Store.World.{World, Error}
use creel.Store.Documents

-- `if setErr := UpdateStatus(…, "failed"); setErr != nil { return … }; return err`.
unfoldable pub fail_document : {A : Type 0} → String → Error → Error → Exec World Error A
fail_document id set_msg msg = or_fail (Documents.update_status id failed) set_msg >> fail msg

abbrev pub failing :
    {A : Type 0} → Result Error A → String → Error → Error → World → Result Error A × World
failing (ok a) id set_msg msg w = (ok a, w)
failing (err _) id set_msg msg w = fail_document id set_msg msg w

-- `if err != nil`, with the document's status.
abbrev pub or_fail_document :
    {A : Type 0} → Exec World Error A → String → Error → Error → Exec World Error A
or_fail_document m id set_msg msg w = failing (m w).0 id set_msg msg (m w).1

-- An early return with the document's status.
abbrev pub guard_document : Bool → String → Error → Error → Exec World Error (Unit {0})
guard_document true id set_msg msg = pure tt
guard_document false id set_msg msg = fail_document id set_msg msg

-- A result that was computed without the tables.
abbrev pub result : {A : Type 0} → Result Error A → Exec World Error A
result r w = (r, w)
