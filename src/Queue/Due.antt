-- ===== src/Queue/Due.antt =====
-- When a row may be claimed and which of two rows is claimed first, said apart from the query of
-- DeliveryStore.Claim, internal/execution/delivery_queue.go; and what becomes of open attempts.
use chronos_code.Base.{
  Text, text_eq_sound, text_eq_refl, codes, true, false, List, [], ◌∷◌, Option-cases, Bool-cases,
  some, none, ◌≡◌, sym, inl, inr, arith,
}
use chronos_code.Queue.Rows.{
  QueueStatus, QueueRow, OutcomeKind, AttemptRecord, text_ltb, text_leb, has_status,
}
use chronos_code.Queue.Selection.{is_runnable, row_before}
use chronos_code.Queue.Worker.{close_attempts}
use chronos_code.Queue.Order.{text_ltb_connected}

-- As texts of bytes, the first is not greater than the second.
abbrev pub IsUpTo : Text → Text → Type 0
IsUpTo a b = text_ltb b a ≡ false

-- The row is ready or waits for a retry, and became available by now; or it is leased, and its
-- lease ends by now.
pub data IsClaimable (now : Text) (row : QueueRow) : Type 0 where
  is_ready : row.status ≡ QueueStatus.ready → IsUpTo row.available_at now → IsClaimable now row
  retries :
      row.status ≡ QueueStatus.waiting
      → row.waiting_signal ≡ codes "retry"
      → IsUpTo row.available_at now
      → IsClaimable now row
  expired :
      (end : Text)
      → row.status ≡ QueueStatus.leased
      → row.lease_expires_at ≡ some end
      → IsUpTo end now
      → IsClaimable now row

-- The first row, of the delivery `i`, does not come after the second, of `j`: by the texts of the
-- times they became available, then of their creation, then of their IDs.
pub data Leads (a : QueueRow) (i : Text) (b : QueueRow) (j : Text) : Type 0 where
  available_first : text_ltb a.available_at b.available_at ≡ true → Leads a i b j
  created_first :
      a.available_at ≡ b.available_at → text_ltb a.created_at b.created_at ≡ true → Leads a i b j
  named_first :
      a.available_at ≡ b.available_at → a.created_at ≡ b.created_at → IsUpTo i j → Leads a i b j

-- The attempts after a claim at `at`: an open one has ended, expired, and the others are kept.
pub data Ended (at : Text) : List AttemptRecord → List AttemptRecord → Type 0 where
  no_attempts : Ended at [] []
  was_over :
      {as' bs : List AttemptRecord} (a b : AttemptRecord) (t : Text)
      → a.finished_at ≡ some t
      → b ≡ a
      → Ended at as' bs
      → Ended at (a ∷ as') (b ∷ bs)
  was_open :
      {as' bs : List AttemptRecord} (a b : AttemptRecord)
      → a.finished_at ≡ none
      → b ≡ record a {
        finished_at = some at;
        outcome = OutcomeKind.lease_expired;
        error = codes "lease expired before completion";
      }
      → Ended at as' bs
      → Ended at (a ∷ as') (b ∷ bs)

pub close_attempts-Ended :
    (at : Text) (as' : List AttemptRecord)
    → Ended at as'
        (close_attempts at OutcomeKind.lease_expired (codes "lease expired before completion") as')
unfolding close_attempts
close_attempts-Ended at [] = no_attempts
close_attempts-Ended at (a ∷ as') = elim (Option-cases a.finished_at) [
  | inl going ↦ was_open a _ going (ground (arith, going)) (close_attempts-Ended at as')
  | inr (t, over) ↦ was_over a _ t over (ground (arith, over)) (close_attempts-Ended at as')
]

ready-status :
    (row : QueueRow) → has_status QueueStatus.ready row ≡ true → row.status ≡ QueueStatus.ready
ready-status row h = ground arith

waiting-status :
    (row : QueueRow) → has_status QueueStatus.waiting row ≡ true → row.status ≡ QueueStatus.waiting
waiting-status row h = ground arith

leased-status :
    (row : QueueRow) → has_status QueueStatus.leased row ≡ true → row.status ≡ QueueStatus.leased
leased-status row h = ground arith

pub is_runnable-IsClaimable :
    (now : Text) (row : QueueRow) → is_runnable now row ≡ true → IsClaimable now row
unfolding is_runnable text_leb
is_runnable-IsClaimable now row h = elim (Bool-cases (has_status QueueStatus.ready row)) [
  | inl free ↦ is_ready (ready-status row free) (ground (arith, ready-status row free))
  | inr taken ↦ elim (Bool-cases (has_status QueueStatus.leased row)) [
    | inl held ↦ elim (Option-cases row.lease_expires_at) [
      | inl endless ↦ absurd (ground (arith, endless, leased-status row held))
      | inr (end, ends) ↦
          expired end (leased-status row held) ends (ground (arith, ends, leased-status row held))
    ]
    | inr loose ↦
        retries (waiting-status row (ground arith))
          (text_eq_sound row.waiting_signal (codes "retry") (ground arith)) (ground arith)
  ]
]

pub IsClaimable-is_runnable :
    (now : Text) (row : QueueRow) → IsClaimable now row → is_runnable now row ≡ true
unfolding is_runnable text_leb
IsClaimable-is_runnable now row (is_ready s t) = ground (arith, s, t)
IsClaimable-is_runnable now row (retries s w t) =
    ground (arith, s, w, t, text_eq_refl (codes "retry"))
IsClaimable-is_runnable now row (expired end s e t) = ground (arith, s, e, t)

pub row_before-Leads : (a b : QueueRow) (i j : Text) → row_before b j a i ≡ false → Leads a i b j
row_before-Leads a b i j h = elim (Bool-cases (text_ltb a.available_at b.available_at)) [
  | inl earlier ↦ available_first earlier
  | inr later ↦
      let same = text_ltb_connected b.available_at a.available_at (ground arith) later in
      let available = sym (text_eq_sound b.available_at a.available_at same) in
      elim (Bool-cases (text_ltb a.created_at b.created_at)) [
        | inl older ↦ created_first available older
        | inr younger ↦
            let same' =
              text_ltb_connected b.created_at a.created_at (ground (arith, same)) younger in
            named_first available (sym (text_eq_sound b.created_at a.created_at same'))
              (ground (arith, same, same'))
      ]
]
