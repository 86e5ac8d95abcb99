-- ===== src/Queue/Order.antt =====
-- The order of the rows that a claim may take: ORDER BY of the query of DeliveryStore.Claim,
-- internal/execution/delivery_queue.go.
use chronos_code.Base.{
  Text, Bool, true, false, ◌&&◌, ◌||◌, [], ◌∷◌, some, Option-cases, Bool-cases, text_eq,
  text_eq_iff, ◌≡◌, refl, sym, ◌∙◌, inl, inr, arith,
}
use chronos_code.Queue.Rows.{QueueRow, Case, text_ltb}
use chronos_code.Queue.Selection.{is_due, row_before, before}

text_ltb_negtrans :
    (a b c : Text) → text_ltb a b ≡ false → text_ltb b c ≡ false → text_ltb a c ≡ false
unfolding text_ltb
text_ltb_negtrans [] b [] h k = refl
text_ltb_negtrans (x ∷ a) b [] h k = refl
text_ltb_negtrans a [] (z ∷ c) h k = absurd cc
text_ltb_negtrans [] (y ∷ b) (z ∷ c) h k = absurd cc
text_ltb_negtrans (x ∷ a) (y ∷ b) (z ∷ c) h k = ground (arith, text_ltb_negtrans a b c)

pub text_ltb_connected :
    (a b : Text) → text_ltb a b ≡ false → text_ltb b a ≡ false → text_eq a b ≡ true
unfolding text_ltb text_eq
text_ltb_connected [] [] h k = refl
text_ltb_connected [] (y ∷ b) h k = absurd cc
text_ltb_connected (x ∷ a) [] h k = absurd cc
text_ltb_connected (x ∷ a) (y ∷ b) h k = ground (arith, text_ltb_connected a b)

-- The lexicographic order of a text and a Boolean test on what follows it.
lex_negtrans :
    (a b c : Text) (ab bc ac : Bool)
    → (ab ≡ false → bc ≡ false → ac ≡ false)
    → (text_ltb a b || (text_eq a b && ab)) ≡ false
    → (text_ltb b c || (text_eq b c && bc)) ≡ false
    → (text_ltb a c || (text_eq a c && ac)) ≡ false
lex_negtrans a b c ab bc ac f h k = ground (
  arith,
  f,
  text_ltb_negtrans a b c,
  text_ltb_connected a b,
  text_ltb_connected b c,
  text_eq_iff a b,
  text_eq_iff b c,
  text_eq_iff a c,
)

pub text_ltb_asym : (a b : Text) → text_ltb a b ≡ true → text_ltb b a ≡ false
unfolding text_ltb
text_ltb_asym [] [] h = refl
text_ltb_asym [] (y ∷ b) h = refl
text_ltb_asym (x ∷ a) [] h = absurd cc
text_ltb_asym (x ∷ a) (y ∷ b) h = ground (arith, text_ltb_asym a b)

pub lex_asym :
    (a b : Text) (ab ba : Bool)
    → (ab ≡ true → ba ≡ false)
    → (text_ltb a b || (text_eq a b && ab)) ≡ true
    → (text_ltb b a || (text_eq b a && ba)) ≡ false
lex_asym a b ab ba f h =
    ground (arith, f, text_ltb_asym a b, text_ltb_asym b a, text_eq_iff a b, text_eq_iff b a)

row_before_negtrans :
    (r q p : QueueRow) (i j k : Text)
    → row_before r i q j ≡ false
    → row_before q j p k ≡ false
    → row_before r i p k ≡ false
row_before_negtrans r q p i j k =
    lex_negtrans r.available_at q.available_at p.available_at _ _ _
      (lex_negtrans r.created_at q.created_at p.created_at _ _ _ (text_ltb_negtrans i j k))

row_before_asym :
    (r q : QueueRow) (i j : Text) → row_before r i q j ≡ true → row_before q j r i ≡ false
row_before_asym r q i j =
    lex_asym r.available_at q.available_at _ _
      (lex_asym r.created_at q.created_at _ _ (text_ltb_asym i j))

pub before-rows :
    (a b : Case) (r q : QueueRow)
    → a.queue ≡ some r
    → b.queue ≡ some q
    → before a b ≡ row_before r a.delivery.id q b.delivery.id
unfolding before
before-rows a b r q e f = rw (before, e, f) refl

pub due-row :
    (now : Text) (c : Case) → is_due now c ≡ true → (row : QueueRow) × (c.queue ≡ some row)
due-row now c h = elim (Option-cases c.queue) [
  | inl absent ↦ absurd (ground arith)
  | inr there ↦ there
]

-- The order of two rows that are due.
pub due_negtrans :
    (now : Text) (a b c : Case)
    → is_due now a ≡ true
    → is_due now b ≡ true
    → is_due now c ≡ true
    → before a b ≡ false
    → before b c ≡ false
    → before a c ≡ false
due_negtrans now a b c h k l f g =
    let (r, e) = due-row now a h in
    let (q, e') = due-row now b k in
    let (p, e'') = due-row now c l in
    before-rows a c r p e e''
    ∙ row_before_negtrans r q p a.delivery.id b.delivery.id c.delivery.id
        (sym (before-rows a b r q e e') ∙ f) (sym (before-rows b c q p e' e'') ∙ g)

pub due_asym :
    (now : Text) (a b : Case)
    → is_due now a ≡ true
    → is_due now b ≡ true
    → before a b ≡ true
    → before b a ≡ false
due_asym now a b h k f =
    let (r, e) = due-row now a h in
    let (q, e') = due-row now b k in
    before-rows b a q r e' e
    ∙ row_before_asym r q a.delivery.id b.delivery.id (sym (before-rows a b r q e e') ∙ f)

pub due_irrefl : (now : Text) (a : Case) → is_due now a ≡ true → before a a ≡ false
due_irrefl now a h = elim (Bool-cases (before a a)) [
  | inl loop ↦ due_asym now a a h h loop
  | inr done ↦ done
]
