-- ===== src/ScanWork/Lifecycle.antt =====
-- The life of a work item over every history of calls.
use hhc_line_function_bot.Prelude.{◌≡◌}
use hhc_line_function_bot.ScanWork.{Work}
use hhc_line_function_bot.ScanWork.Diagram.{◌⟶*◌, Kept}

module _ {R : Type 0} where
  -- What a change does to an item: its status takes an edge or stays, its asset and its descriptor stay
  -- once they are recorded, and all that identifies it stays.
  pub record Advances (w v : Work R) : Type 0 where
    pub moved : w.status ⟶* v.status
    pub asset_kept : Kept w.asset_id v.asset_id
    pub descriptor_kept : Kept w.upload_descriptor v.upload_descriptor
    pub same_id : v.id ≡ w.id
    pub same_job : v.job_id ≡ w.job_id
    pub same_message : v.line_message_id ≡ w.line_message_id
    pub same_scope : v.scope ≡ w.scope
    pub same_target : v.target ≡ w.target
    pub same_creation : v.created_at ≡ w.created_at
    pub same_expiry : v.expires_at ≡ w.expires_at
