-- ===== src/Escrow/Disputes.antt =====
-- `dispute`, `cancel` and `addMessage`: what they do to the books.
use farm_backend.Prelude.{ℕ, ◌≡◌, refl, Bool, true, false, not, Option, none, some, arith}
use farm_backend.Prelude.Int.{int_laws, parts_of_eq, ◌≤ℤ◌}
use farm_backend.Prelude.Text.{Text, trim, is_empty}
use farm_backend.Prelude.Table.{Table, find, modify}
use farm_backend.Auth.Harmless.{IsHarmless}
use farm_backend.Store.{
  Db, Escrow, Evidence, Message, active, create_message, update_many_escrow, update_escrow,
  write_escrow, bad_request, raise_if, ◌>>◌,
}
use farm_backend.Store.Rules.{
  Post, returns, Any, Post-or_raise, Post-check, Post-then, Post-bind, Post-pure, Post-branch,
  Post-mono, Post-or,
}
use farm_backend.Store.Balance.{total, Books}
use farm_backend.Store.Ledger.{
  SameMoney, SameMoney-refl, Books-mono, Books-claim, Claimed, Books-create_message,
}
use farm_backend.Escrow.Env.{Env}
use farm_backend.Escrow.Money.{remaining_amount}
use farm_backend.Escrow.Release.{status_eq}
use farm_backend.Escrow.Attachment.{Media, Attachment, upload_attachment, stored_url}
use farm_backend.Escrow.Dispute.{
  other_party, disputed_row, dispute_tx, dispute, cancelled_row, cancel, add_message,
}
use farm_backend.Escrow.Debt.{held, owed, Solvent, Books-of_Solvent, Solvent-of_Books, owed-modify}
use farm_backend.Escrow.Settle.{Keeps, Keeps-of_Post}
use farm_backend.Escrow.Checks.{transaction-Keeps, Solvent-SameMoney}
use farm_backend.Escrow.Handlers.{Kept, Kept-refl, IsSafe, read-Post}

-- A write to one escrow that holds no more than before keeps the books.
holds_no_more :
    (id : ℕ) (f : Escrow → Escrow) (r : Escrow) (es : Table Escrow) (k : ℕ)
    → find id es ≡ some r
    → held k (f r) ≤ℤ held k r
    → owed (modify id f es) k ≤ℤ owed es k
holds_no_more id f r es k found le = omega (int_laws, le, parts_of_eq (owed-modify id f es k found))

Kept-Books :
    (id : ℕ) (f : Escrow → Escrow) {r : Escrow} (db d : Db)
    → find id db.escrows ≡ some r
    → ((k : ℕ) → held k (f r) ≤ℤ held k r)
    → Books (total db) (owed db.escrows) (modify id f db.escrows) d
    → Kept db d
Kept-Books id f {r} db d found less b = record {
  same_total = b.has_total;
  solvent =
      Solvent-of_Books d
        (Books-mono b refl (λ k. holds_no_more id f r db.escrows k found (less k)));
}

-- A disputed escrow goes on holding what it held.
held-disputed :
    (now k : ℕ) (ev : Evidence) (r : Escrow)
    → status_eq r.status active ≡ true
    → held k (disputed_row now ev r) ≡ held k r
unfolding status_eq remaining_amount
held-disputed now k ev r h = ground arith

held-cancelled : (k : ℕ) (r : Escrow) → held k (cancelled_row r) ≤ℤ held k r
unfolding remaining_amount
held-cancelled k r = ground arith

disputed_rows :
    (env : Env) (id user_id : ℕ) (reason : Text) (url : Option Text) (mime : Text) (db d : Db)
    (claimed : Bool) (ev : Evidence) (m : Message)
    → Solvent db
    → Claimed
        (total db)
        (owed db.escrows)
        db.escrows
        id
        (λ r. status_eq r.status active)
        (disputed_row env.now ev)
        claimed
        d
    → Post Any
        (λ _ d'. (total d' ≡ total db) × Solvent d')
        ((raise_if (not claimed) (bad_request "Can only dispute an active escrow")
            >> create_message m)
          d)
disputed_rows env id user_id reason url mime db d false ev m s c =
    Post-check (not false) _ _ d tt (λ impossible. absurd (cc))
disputed_rows env id user_id reason url mime db d true ev m s (r, found, was_active, b) =
    Post-check (not true) _ _ d tt λ _.
      Post-mono (create_message m d) (Books-create_message m d b) λ _ d' b'.
        let k =
          Kept-Books id (disputed_row env.now ev) db d' found
            (λ k. rw (held-disputed env.now k ev r was_active) (omega arith)) b' in
        (k.same_total, k.solvent)

dispute_tx-Books :
    (env : Env) (id user_id : ℕ) (reason : Text) (url : Option Text) (mime : Text) (db : Db)
    → Solvent db
    → Post Any
        (λ _ d. (total d ≡ total db) × Solvent d)
        (dispute_tx env id user_id reason url mime db)
unfolding dispute_tx
dispute_tx-Books env id user_id reason url mime db s =
    Post-bind (update_many_escrow id _ _) _ db
      (Books-claim id (λ r. status_eq r.status active) (disputed_row env.now _) db
        (Books-of_Solvent db s))
      λ claimed d c. disputed_rows env id user_id reason url mime db d claimed _ _ s c

-- Looking for the evidence's URL writes nothing.
upload-IsHarmless :
    (media : Media) (id : ℕ) (mime base64 : Text) {db : Db} (d : Db)
    → SameMoney db d
    → IsHarmless db (upload_attachment media id mime base64 d)
unfolding upload_attachment
upload-IsHarmless media id mime base64 d h = Post-check _ _ _ d h λ _. Post-check _ _ _ d h λ _.
    Post-check _ _ _ d h
      λ _. Post-check _ _ _ d h λ _. Post-or _ (media.upload mime base64 id) d h (λ url. h)

pub stored_url-IsHarmless :
    (media : Media) (id : ℕ) (a : Attachment) {db : Db} (d : Db)
    → SameMoney db d
    → IsHarmless db (stored_url media id a d)
unfolding stored_url
stored_url-IsHarmless media id a d h =
    Post-branch (not (is_empty a.url)) _ _ d (λ _. Post-pure (some a.url) d h)
      λ _.
        Post-branch (is_empty a.base64) _ _ d (λ _. Post-pure none d h)
          λ _.
            Post-bind (upload_attachment media id a.mime_type a.base64) _ d
              (upload-IsHarmless media id a.mime_type a.base64 d h)
              λ url d' h'. Post-pure (some url) d' h'

-- Take a state in which every wallet covers what its open escrows hold. `dispute` that returns
-- leaves the sum of all balances as it was and every wallet covering what its open escrows, the
-- disputed one too, hold; if it raises, all rows about money are as they were.
pub dispute-Keeps :
    (env : Env) (media : Media) (id user_id : ℕ) (reason : Text) (a : Attachment) (db : Db)
    → Solvent db
    → Keeps db (dispute env media id user_id reason a db)
unfolding dispute
dispute-Keeps env media id user_id reason a db s =
    let h = SameMoney-refl db in
    Keeps-of_Post _ (
      Post-check _ _ _ db h λ _. Post-check _ _ _ db h λ _. Post-check _ _ _ db h λ _.
        Post-check _ _ _ db h λ _. read-Post id _ db h λ e _. Post-check _ _ _ db h λ _.
          Post-check _ _ _ db h λ _.
            Post-bind (stored_url media id a) _ db (stored_url-IsHarmless media id a db h)
              λ url d h'. Post-or_raise _ (other_party user_id e) _ d h' λ other _.
                transaction-Keeps (dispute_tx env id user_id (trim reason) url a.mime_type) d h' (
                  dispute_tx-Books env id user_id (trim reason) url a.mime_type d
                    (Solvent-SameMoney s h')))

cancelled :
    (id : ℕ) (e : Escrow) (db : Db)
    → Solvent db
    → find id db.escrows ≡ some e
    → IsSafe db (update_escrow id cancelled_row db)
unfolding update_escrow write_escrow total
cancelled id e db s found = rw found (
    returns (
      Kept-Books id cancelled_row db (record db { escrows = modify id cancelled_row db.escrows })
        found (λ k. held-cancelled k e)
        (record { has_total = refl; covers = s.covered; same = refl })))

said : (m : Message) (db : Db) → Solvent db → IsSafe db (create_message m db)
unfolding create_message total
said m db s = returns (record { same_total = refl; solvent = record { covered = s.covered } })

-- `cancel` raises after its write where the escrow has no seller; the books are kept all the same.
pub cancel-IsSafe : (id user_id : ℕ) (db : Db) → Solvent db → IsSafe db (cancel id user_id db)
unfolding cancel
cancel-IsSafe id user_id db s =
    let k = Kept-refl s in
    read-Post id _ db k λ e found. Post-check _ _ _ db k λ _. Post-check _ _ _ db k λ _.
      Post-check _ _ _ db k λ _.
        Post-then (update_escrow id cancelled_row) _ db (cancelled id e db s found)
          λ _ d k'. Post-or_raise _ e.seller_id _ d k' λ seller _. Post-pure tt d k'

pub add_message-IsSafe :
    (id sender_id : ℕ) (message : Text) (db : Db)
    → Solvent db
    → IsSafe db (add_message id sender_id message db)
unfolding add_message
add_message-IsSafe id sender_id message db s =
    let k = Kept-refl s in read-Post id _ db k λ e found. Post-check _ _ _ db k λ _. said _ db s
