-- ===== src/Payments/Histories.antt =====
-- Sequences of calls of the payments and documents services, as a step relation on sessions.
use faethon_system.Base.{ℕ, ℤ, pos, ◌≤ℤ◌, List, ok, ◌≡◌}
use faethon_system.Models.{Db, Document, Payment, PaymentAllocation}
use faethon_system.Documents.Posting.{
  DocumentRepost, post_document, repost_document, cancel_document,
}
use faethon_system.Payments.{
  PaymentCreate, PaymentUpdate, allocation_inputs, updated_inputs, load_payment, create_payment,
  update_payment, delete_draft_payment, post_payment, replace_posted_payment_allocations,
  cancel_payment,
}
use faethon_system.Payments.Allocations.{NonNegative}
use faethon_system.Payments.Drafts.{KeysBelow}

-- A call that returns. The amounts of a request are not negative, as its schema demands, and the
-- next key is above those of the payments.
pub data Step (before after : Db) : Type 0 where
  creates_payment :
      (payload : PaymentCreate) (p : Payment)
      → KeysBelow before.next_id before.payments
      → NonNegative (allocation_inputs payload)
      → create_payment before payload ≡ ok (p, after)
      → Step before after
  updates_payment :
      (id : ℕ) (payload : PaymentUpdate) (p : Payment)
      → ((old : Payment) (amount : ℤ)
          → load_payment before id ≡ ok old
          → NonNegative (updated_inputs old payload amount))
      → update_payment before id payload ≡ ok (p, after)
      → Step before after
  deletes_payment : (id : ℕ) → delete_draft_payment before id ≡ ok after → Step before after
  posts_payment :
      (id : ℕ) (p : Payment) → post_payment before id ≡ ok (p, after) → Step before after
  reallocates_payment :
      (id : ℕ) (allocations : List PaymentAllocation) (p : Payment)
      → NonNegative allocations
      → replace_posted_payment_allocations before id allocations ≡ ok (p, after)
      → Step before after
  cancels_payment :
      (id : ℕ) (p : Payment) → cancel_payment before id ≡ ok (p, after) → Step before after
  posts_document :
      (id : ℕ) (d : Document) → post_document before id ≡ ok (d, after) → Step before after
  corrects_document :
      (id : ℕ) (payload : DocumentRepost) (now : ℕ) (d : Document)
      → pos 0 ≤ℤ d.total_amount
      → repost_document before id payload now ≡ ok (d, after)
      → Step before after
  cancels_document :
      (id now : ℕ) (d : Document)
      → cancel_document before id now ≡ ok (d, after)
      → Step before after

-- Any number of calls, one after the other.
pub data History (start : Db) : Db → Type 0 where
  begins : History start start
  goes_on : {before after : Db} → History start before → Step before after → History start after
