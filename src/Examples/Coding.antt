-- ===== src/Examples/Coding.antt =====
-- A coding of values as lists of numbers, which the runs of the queue use for JSON: each coding
-- reads its value back from the front of a list.
use chronos_code.Base.{ℕ, zero, suc, List, [], ◌∷◌, ◌++◌, length, Option, none, some, ◌≡◌, refl, ap}

pub record Coding {ℓ} (A : Type ℓ) : Type ℓ where
  pub write : A → List ℕ
  pub read : List ℕ → Option (A × List ℕ)
  pub law : (a : A) (rest : List ℕ) → read (write a ++ rest) ≡ some (a, rest)

abbrev then_read {ℓ κ} :
    {A : Type ℓ} {B : Type κ} → Option (A × List ℕ) → (A → List ℕ → Option B) → Option B
then_read none f = none
then_read (some (a, rest)) f = f a rest

abbrev read_number : List ℕ → Option (ℕ × List ℕ)
read_number [] = none
read_number (n ∷ ns) = some (n, ns)

abbrev pub number : Coding ℕ
number = record { write = λ n. n ∷ []; read = read_number; law = λ a rest. refl }

pub append_assoc : (xs ys zs : List ℕ) → (xs ++ ys) ++ zs ≡ xs ++ (ys ++ zs)
append_assoc [] ys zs = refl
append_assoc (x ∷ xs) ys zs = ap (λ l. x ∷ l) (append_assoc xs ys zs)

module _ {ℓ κ} {A : Type ℓ} {B : Type κ} where
  abbrev pub pair : Coding A → Coding B → Coding (A × B)
  pair c d = record {
    write = λ p. c.write p.0 ++ d.write p.1;
    read = λ l.
        then_read (c.read l) (λ a rest. then_read (d.read rest) (λ b rest'. some ((a, b), rest')));
    law = λ p rest.
        rw
          (
            append_assoc (c.write p.0) (d.write p.1) rest,
            c.law p.0 (d.write p.1 ++ rest),
            d.law p.1 rest,
          )
          refl;
  }

  -- Through a type that has the values of `B`.
  abbrev pub through :
      (to : B → A) (from : A → B) → ((b : B) → from (to b) ≡ b) → Coding A → Coding B
  through to from back c = record {
    write = λ b. c.write (to b);
    read = λ l. then_read (c.read l) (λ a rest. some (from a, rest));
    law = λ b rest. rw (c.law (to b) rest, back b) refl;
  }

module _ {ℓ} {A : Type ℓ} (c : Coding A) where
  abbrev write_all : List A → List ℕ
  write_all [] = []
  write_all (a ∷ as') = c.write a ++ write_all as'

  read_all : ℕ → List ℕ → Option (List A × List ℕ)
  read_all zero l = some ([], l)
  read_all (suc n) l =
      then_read (c.read l)
        (λ a rest. then_read (read_all n rest) (λ as' rest'. some (a ∷ as', rest')))

  read_all-write_all :
      (as' : List A) (rest : List ℕ)
      → read_all (length as') (write_all as' ++ rest) ≡ some (as', rest)
  unfolding read_all
  read_all-write_all [] rest = refl
  read_all-write_all (a ∷ as') rest =
      rw
        (
          append_assoc (c.write a) (write_all as') rest,
          c.law a (write_all as' ++ rest),
          read_all-write_all as' rest,
        )
        refl

  pub many : Coding (List A)
  many = record {
    write = λ as'. length as' ∷ write_all as';
    read = λ l. then_read (read_number l) read_all;
    law = λ as' rest. read_all-write_all as' rest;
  }
