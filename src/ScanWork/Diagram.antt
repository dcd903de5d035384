-- ===== src/ScanWork/Diagram.antt =====
-- The changes of a work item: the edges of its status diagram, and what is written once.
use hhc_line_function_bot.Prelude.{
  String, ◌≡◌, refl, ◌∙◌, ◌⊎◌, inl, inr, true, false, not, ◌&&◌, ◌||◌, Option, none, some, arith,
  eq_iff, same_text,
}
use hhc_line_function_bot.ScanWork.{
  Status, pending_enqueue, queued, claimed, publishing, completed, failed, UploadDescriptor, Work,
  is_queued, is_claimed, has_passed, enqueued, cancelled, taken, abandoned, published, with_asset,
  with_descriptor, released, completed_with, failed_with,
}
use hhc_line_function_bot.Jobs.{is_some}
use hhc_line_function_bot.ScanWork.History.{
  Change, by_enqueue, by_cancel, by_claim, by_abandon, by_publish, by_asset, by_descriptor,
  by_release, by_complete, by_fail, by_report,
}
use hhc_line_function_bot.ScanWork.{same_upload_descriptor, other_descriptor}

infix 40 ◌⟶◌ ◌⟶*◌
pub data ◌⟶◌ : Status → Status → Type 0 where
  enqueue : pending_enqueue ⟶ queued
  cancel : pending_enqueue ⟶ failed
  claim_it : queued ⟶ claimed
  claim_again : claimed ⟶ claimed
  release : claimed ⟶ queued
  break_off : claimed ⟶ failed
  publish : claimed ⟶ publishing
  finish : publishing ⟶ completed
  abandon : publishing ⟶ failed

pub data ◌⟶*◌ : Status → Status → Type 0 where
  here : {p : Status} → p ⟶* p
  next : {p q r : Status} → p ⟶* q → q ⟶ r → p ⟶* r

ruleset edges =
    (enqueue, cancel, claim_it, claim_again, release, break_off, publish, finish, abandon)

-- A value that is written once: what is there stays.
abbrev pub Kept {ℓ} : {A : Type ℓ} → Option A → Option A → Type ℓ
Kept none b = Unit
Kept (some a) b = b ≡ some a

same_upload_descriptor-eq : (d e : UploadDescriptor) → same_upload_descriptor d e ≡ true → d ≡ e
unfolding same_upload_descriptor
same_upload_descriptor-eq d e h = ground (
  arith,
  eq_iff d.file_name e.file_name,
  eq_iff d.mime_type e.mime_type,
  eq_iff d.checksum_sha256 e.checksum_sha256,
)

descriptor_same :
    (o : Option UploadDescriptor) (d : UploadDescriptor)
    → other_descriptor o d ≡ false
    → Kept o (some d)
descriptor_same none d h = tt
descriptor_same (some e) d h =
    let same : e ≡ d = same_upload_descriptor-eq e d (ground arith) in rw same refl

pub Kept-refl {ℓ} : {A : Type ℓ} (o : Option A) → Kept o o
Kept-refl none = tt
Kept-refl (some a) = refl

Kept-same {ℓ} : {A : Type ℓ} (o p : Option A) → p ≡ o → Kept o p
Kept-same o p e = rw e (Kept-refl o)

pub Kept-trans {ℓ} : {A : Type ℓ} (o p q : Option A) → Kept o p → Kept p q → Kept o q
Kept-trans none p q a b = tt
Kept-trans (some x) none q a b = cc
Kept-trans (some x) (some y) q a b = b ∙ a

asset_same :
    (o : Option String) (a : String)
    → (is_some o && not (same_text o (some a))) ≡ false
    → Kept o (some a)
asset_same none a h = tt
asset_same (some b) a h = ground (arith, eq_iff b a)

pub ⟶*-trans : {p q r : Status} → p ⟶* q → q ⟶* r → p ⟶* r
⟶*-trans a here = a
⟶*-trans a (next b e) = next (⟶*-trans a b) e

along : {p q p' q' : Status} → p ≡ p' → q ≡ q' → p' ⟶ q' → p ⟶* q
along e f edge = rw (e, f) (next here edge)

unmoved : {p q : Status} → q ≡ p → p ⟶* q
unmoved e = rw e here

module _ {R : Type 0} where
  -- The fields that no change touches.
  abbrev pub SameIdentity : Work R → Work R → Type 0
  SameIdentity w v =
      (v.id ≡ w.id)
      × (v.job_id ≡ w.job_id)
      × (v.line_message_id ≡ w.line_message_id)
      × (v.scope ≡ w.scope)
      × (v.target ≡ w.target)
      × (v.created_at ≡ w.created_at)
      × (v.expires_at ≡ w.expires_at)

  pub Change-SameIdentity : (w v : Work R) → Change w v → SameIdentity w v
  unfolding enqueued cancelled taken abandoned published with_asset with_descriptor released
      completed_with failed_with
  Change-SameIdentity w v (by_enqueue e) = ground arith
  Change-SameIdentity w v (by_cancel code now e) = ground arith
  Change-SameIdentity w v (by_claim claim_id lease_ms now free e) = ground arith
  Change-SameIdentity w v (by_abandon now b passed e) = ground arith
  Change-SameIdentity w v (by_publish claim_id lease_ms deadline now e) = ground arith
  Change-SameIdentity w v (by_asset claim_id asset_id now e) = ground arith
  Change-SameIdentity w v (by_descriptor claim_id d now e) = ground arith
  Change-SameIdentity w v (by_release claim_id now e) = ground arith
  Change-SameIdentity w v (by_complete claim_id result now e) = ground arith
  Change-SameIdentity w v (by_fail claim_id code now e) = ground arith
  Change-SameIdentity w v (by_report e) = ground arith

  abbrev pub WrittenOnce : Work R → Work R → Type 0
  WrittenOnce w v = Kept w.asset_id v.asset_id × Kept w.upload_descriptor v.upload_descriptor

  pub change-⟶* : (w v : Work R) → Change w v → w.status ⟶* v.status
  unfolding enqueued cancelled taken abandoned published with_asset with_descriptor released
      completed_with failed_with
  change-⟶* w v (by_enqueue e) =
      along {p' = pending_enqueue} {q' = queued} (ground arith) (ground arith) enqueue
  change-⟶* w v (by_cancel code now e) =
      along {p' = pending_enqueue} {q' = failed} (ground arith) (ground arith) cancel
  change-⟶* w v (by_claim claim_id lease_ms now free e) = elim (queued_or_claimed w.status free) [
    | inl f ↦ along {p' = queued} {q' = claimed} f (ground arith) claim_it
    | inr f ↦ along {p' = claimed} {q' = claimed} f (ground arith) claim_again
  ]
    where
      queued_or_claimed :
          (p : Status)
          → (is_queued p || (is_claimed p && has_passed w.claim_expires_at now)) ≡ true
          → (p ≡ queued) ⊎ (p ≡ claimed)
      queued_or_claimed p h = ground arith
  change-⟶* w v (by_abandon now b passed e) =
      along {p' = publishing} {q' = failed} (ground arith) (ground arith) abandon
  change-⟶* w v (by_publish claim_id lease_ms deadline now e) =
      along {p' = claimed} {q' = publishing} (ground arith) (ground arith) publish
  change-⟶* w v (by_asset claim_id asset_id now e) = unmoved (ground arith)
  change-⟶* w v (by_descriptor claim_id d now e) = unmoved (ground arith)
  change-⟶* w v (by_release claim_id now e) =
      along {p' = claimed} {q' = queued} (ground arith) (ground arith) release
  change-⟶* w v (by_complete claim_id result now e) =
      along {p' = publishing} {q' = completed} (ground arith) (ground arith) finish
  change-⟶* w v (by_fail claim_id code now e) =
      let from : (w.status ≡ claimed) ⊎ (w.status ≡ publishing) = ground arith in
      elim from [
        | inl f ↦ along {p' = claimed} {q' = failed} f (ground arith) break_off
        | inr f ↦ along {p' = publishing} {q' = failed} f (ground arith) abandon
      ]
  change-⟶* w v (by_report e) = unmoved (ground arith)

  pub Change-WrittenOnce : (w v : Work R) → Change w v → WrittenOnce w v
  unfolding enqueued cancelled taken abandoned published with_asset with_descriptor released
      completed_with failed_with
  Change-WrittenOnce w v (by_asset claim_id asset_id now e) =
      let a : v.asset_id ≡ some asset_id = ground arith in
      (rw a (asset_same w.asset_id asset_id (ground arith)), Kept-same _ _ (ground arith))
  Change-WrittenOnce w v (by_descriptor claim_id d now e) =
      let b : v.upload_descriptor ≡ some d = ground arith in
      (Kept-same _ _ (ground arith), rw b (descriptor_same w.upload_descriptor d (ground arith)))
  Change-WrittenOnce w v (by_enqueue e) =
      (Kept-same _ _ (ground arith), Kept-same _ _ (ground arith))
  Change-WrittenOnce w v (by_cancel code now e) =
      (Kept-same _ _ (ground arith), Kept-same _ _ (ground arith))
  Change-WrittenOnce w v (by_claim claim_id lease_ms now free e) =
      (Kept-same _ _ (ground arith), Kept-same _ _ (ground arith))
  Change-WrittenOnce w v (by_abandon now b passed e) =
      (Kept-same _ _ (ground arith), Kept-same _ _ (ground arith))
  Change-WrittenOnce w v (by_publish claim_id lease_ms deadline now e) =
      (Kept-same _ _ (ground arith), Kept-same _ _ (ground arith))
  Change-WrittenOnce w v (by_release claim_id now e) =
      (Kept-same _ _ (ground arith), Kept-same _ _ (ground arith))
  Change-WrittenOnce w v (by_complete claim_id result now e) =
      (Kept-same _ _ (ground arith), Kept-same _ _ (ground arith))
  Change-WrittenOnce w v (by_fail claim_id code now e) =
      (Kept-same _ _ (ground arith), Kept-same _ _ (ground arith))
  Change-WrittenOnce w v (by_report e) =
      (Kept-same _ _ (ground arith), Kept-same _ _ (ground arith))
