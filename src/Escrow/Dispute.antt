-- ===== src/Escrow/Dispute.antt =====
-- `EscrowService.dispute`, `cancel` and `addMessage`.
use farm_backend.Prelude.{
  ℕ, ⊤, Bool, not, Option, none, some, ◌||◌, ◌++◌, ltb, length, if◌then◌else◌,
}
use farm_backend.Prelude.Text.{Text, codes, trim, is_empty}
use farm_backend.Store.{
  Escrow, Evidence, active, pending, disputed, cancelled, Action, bad_request, forbidden, raise_if,
  or_raise, transaction, pure, update_escrow, update_many_escrow, create_message, ◌>>=◌, ◌>>◌,
}
use farm_backend.Escrow.Env.{Env}
use farm_backend.Escrow.Money.{is_id}
use farm_backend.Escrow.Release.{status_eq, get_escrow_or_fail}
use farm_backend.Escrow.Attachment.{Media, Attachment, is_inconsistent, is_bad_url, stored_url}

unfoldable pub is_party : ℕ → Escrow → Bool
is_party user_id e = is_id user_id e.buyer_id || is_id user_id e.seller_id

abbrev pub other_party : ℕ → Escrow → Option ℕ
other_party user_id e = if is_id user_id e.buyer_id then e.seller_id else e.buyer_id

abbrev pub with_media : Text → Option Text → Option (Text × Text)
with_media mime none = none
with_media mime (some url) = some (url, mime)

abbrev pub disputed_row : ℕ → Evidence → Escrow → Escrow
disputed_row now ev e = record e { status = disputed; disputed_at = some now; evidence = some ev }

unfoldable pub dispute_tx : Env → ℕ → ℕ → Text → Option Text → Text → Action ⊤
unfolding status_eq
dispute_tx env id user_id reason url mime = do
  claimed ←
      update_many_escrow id (λ r. status_eq r.status active)
        (disputed_row env.now
          (record { reason = reason; disputed_by = user_id; attachment = with_media mime url }))
  raise_if (not claimed) (bad_request "Can only dispute an active escrow")
  create_message (record {
    escrow_id = id;
    sender_id = user_id;
    message = codes "DISPUTE RAISED: " ++ reason;
    attachment_url = url;
  })

unfoldable pub dispute : Env → Media → ℕ → ℕ → Text → Attachment → Action ⊤
unfolding dispute_tx stored_url is_inconsistent is_bad_url get_escrow_or_fail is_party status_eq
dispute env media id user_id reason a = do
  raise_if (is_empty (trim reason)) (bad_request "Dispute reason is required")
  raise_if (ltb 2000 (length (trim reason)))
      (bad_request "Dispute reason must be 2000 characters or fewer")
  raise_if (is_inconsistent a)
      (bad_request "Provide either uploaded image URL or attachment data with its media type")
  raise_if (is_bad_url media a) (bad_request "Uploaded image URL is invalid")
  e ← get_escrow_or_fail id
  raise_if (not (is_party user_id e)) (forbidden "Not a party to this escrow")
  raise_if (not (status_eq e.status active)) (bad_request "Can only dispute an active escrow")
  url ← stored_url media id a
  other ← or_raise (bad_request "Escrow has no other party") (other_party user_id e)
  transaction (dispute_tx env id user_id (trim reason) url a.mime_type)

abbrev pub cancelled_row : Escrow → Escrow
cancelled_row e = record e { status = cancelled }

-- The status is tested on the row that was read, and the update is unconditional.
unfoldable pub cancel : ℕ → ℕ → Action ⊤
unfolding get_escrow_or_fail status_eq
cancel id user_id = do
  e ← get_escrow_or_fail id
  raise_if (not (is_id user_id e.buyer_id)) (forbidden "Only buyer can cancel")
  raise_if (status_eq e.status active)
      (bad_request "Cannot cancel a funded escrow. Raise a dispute instead.")
  raise_if (not (status_eq e.status pending)) (bad_request "Cannot cancel escrow in this status")
  update_escrow id cancelled_row
  seller ← or_raise (bad_request "Escrow has no seller") e.seller_id
  pure tt

unfoldable pub add_message : ℕ → ℕ → Text → Action ⊤
unfolding get_escrow_or_fail is_party
add_message id sender_id message = do
  e ← get_escrow_or_fail id
  raise_if (not (is_party sender_id e)) (forbidden "Not a party to this escrow")
  create_message
      (record { escrow_id = id; sender_id = sender_id; message = message; attachment_url = none })
