-- ===== src/Queue/Selection.antt =====
-- The row that a claim selects: the query of DeliveryStore.Claim, internal/execution/delivery_queue.go.
use chronos_code.Base.{
  Text, Bool, false, ◌&&◌, ◌||◌, [], ◌∷◌, Option, none, some, if◌then◌else◌, codes, text_eq,
}
use chronos_code.Queue.Rows.{QueueStatus, QueueRow, Case, Store, text_ltb, text_leb, has_status}

abbrev pub text_is : Text → Option Text → Bool
text_is t none = false
text_is t (some u) = text_eq u t

-- Comparisons with a column that may be NULL.
abbrev pub after : Option Text → Text → Bool
after none t = false
after (some u) t = text_ltb t u

abbrev pub not_after : Option Text → Text → Bool
not_after none t = false
not_after (some u) t = text_leb u t

-- `status = 'waiting' AND waiting_signal = 'retry'`.
abbrev waits_for_retry : QueueRow → Bool
waits_for_retry row =
    has_status QueueStatus.waiting row && text_eq row.waiting_signal (codes "retry")

-- The condition of the claim's query on a row, at the time with the given text.
unfoldable pub is_runnable : Text → QueueRow → Bool
unfolding text_leb
is_runnable now row =
    ((has_status QueueStatus.ready row || waits_for_retry row) && text_leb row.available_at now)
    || (has_status QueueStatus.leased row && not_after row.lease_expires_at now)

abbrev pub is_due : Text → Case → Bool
is_due now c = elim c.queue [ none ↦ false | some row ↦ is_runnable now row ]

-- `ORDER BY available_at, created_at, delivery_id` of two rows.
abbrev pub row_before : QueueRow → Text → QueueRow → Text → Bool
row_before a i b j =
    text_ltb a.available_at b.available_at
    || (text_eq a.available_at b.available_at
        && (text_ltb a.created_at b.created_at
            || (text_eq a.created_at b.created_at && text_ltb i j)))

unfoldable pub before : Case → Case → Bool
unfolding text_ltb
before a b = elim a.queue [
  | none ↦ false
  | some r ↦ elim b.queue [ none ↦ false | some q ↦ row_before r a.delivery.id q b.delivery.id ]
]

-- The row that the query selects: of equal rows the first.
unfoldable pub first_due : Text → Store → Option Case
first_due now [] = none
first_due now (c ∷ cs) =
    let rest = first_due now cs in
    if is_due now c
    then elim rest [ none ↦ some c | some b ↦ if before b c then some b else some c ]
    else rest
