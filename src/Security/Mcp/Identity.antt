-- ===== src/Security/Mcp/Identity.antt =====
-- The bytes that a digest is taken of.
use mathlib.Core.Path.{ap₂}
use mathlib.Core.List.{append_assoc, append-nil}
use chronos_code.Base.{
  Text, codes, ℕ, ◌+◌, ◌*◌, ◌%◌, ◌^◌, ◌<◌, List, [], ◌∷◌, ◌++◌, length, All, ◌≡◌, refl, arith, ap,
  sym, ◌∙◌,
}
use chronos_code.Security.Mcp.{McpServerIdentity, write_size, write, write_all, identity_bytes}

-- Eight bytes, read as a number.
abbrev read_size : Text → ℕ
read_size (a ∷ b ∷ c ∷ d ∷ e ∷ f ∷ g ∷ h ∷ rest) =
    a * 2 ^ 56 + b * 2 ^ 48 + c * 2 ^ 40 + d * 2 ^ 32 + e * 2 ^ 24 + f * 2 ^ 16 + g * 2 ^ 8 + h
read_size _ = 0

read_size-write_size : (n : ℕ) (rest : Text) → n < 2 ^ 64 → read_size (write_size n ++ rest) ≡ n
unfolding write_size
read_size-write_size n rest h = omega arith

after_size : Text → Text
after_size (a ∷ b ∷ c ∷ d ∷ e ∷ f ∷ g ∷ h ∷ rest) = rest
after_size _ = []

write_size_split :
    (m n : ℕ) (r s : Text)
    → m < 2 ^ 64
    → n < 2 ^ 64
    → write_size m ++ r ≡ write_size n ++ s
    → (m ≡ n) × (r ≡ s)
write_size_split m n r s h k e = (
  omega (arith, ap read_size e, read_size-write_size m r h, read_size-write_size n s k),
  unfold write_size after_size in (ap after_size e),
)

append_split : (a b r s : Text) → length a ≡ length b → a ++ r ≡ b ++ s → (a ≡ b) × (r ≡ s)
append_split [] [] r s l e = (refl, e)
append_split [] (y ∷ b) r s l e = absurd (omega arith)
append_split (x ∷ a) [] r s l e = absurd (omega arith)
append_split (x ∷ a) (y ∷ b) r s l e = ground (arith, append_split a b r s)

write_split :
    (a b r s : Text)
    → length a < 2 ^ 64
    → length b < 2 ^ 64
    → write a ++ r ≡ write b ++ s
    → (a ≡ b) × (r ≡ s)
unfolding write
write_split a b r s h k e =
    let (same, e') =
      write_size_split (length a % 2 ^ 64) (length b % 2 ^ 64) (a ++ r) (b ++ s) (omega arith)
        (omega arith)
        (sym (append_assoc (write_size (length a % 2 ^ 64)) a r)
          ∙ e
          ∙ append_assoc (write_size (length b % 2 ^ 64)) b s) in
    append_split a b r s (omega (arith, same)) e'

-- A text, or the number of texts of a list, fits its size field.
abbrev pub IsSized : Text → Type 0
IsSized t = length t < 2 ^ 64

write_all_split :
    (as' bs : List Text) (r s : Text)
    → length as' ≡ length bs
    → All IsSized as'
    → All IsSized bs
    → write_all as' ++ r ≡ write_all bs ++ s
    → (as' ≡ bs) × (r ≡ s)
unfolding write_all
write_all_split [] [] r s l h k e = (refl, e)
write_all_split [] (b ∷ bs) r s l h k e = absurd (omega arith)
write_all_split (a ∷ as') [] r s l h k e = absurd (omega arith)
write_all_split (a ∷ as') (b ∷ bs) r s l h k e =
    let (same, e') = write_split a b (write_all as' ++ r) (write_all bs ++ s) h.0 k.0 (
      sym (append_assoc (write a) (write_all as') r)
      ∙ e
      ∙ append_assoc (write b) (write_all bs) s) in
    let (rest, e'') = write_all_split as' bs r s (omega arith) h.1 k.1 e' in
    (ap₂ (λ x xs. x ∷ xs) same rest, e'')

-- The fields of an identity are shorter than 2^64 bytes, and it has fewer arguments than that.
pub record HasSizes (i : McpServerIdentity) : Type 0 where
  pub name : IsSized i.name
  pub origin : IsSized i.origin
  pub config_digest : IsSized i.config_digest
  pub transport : IsSized i.transport
  pub command : IsSized i.command
  pub count : length i.args < 2 ^ 64
  pub args : All IsSized i.args
  pub url : IsSized i.url

-- What is hashed of two launch identities differs if any field differs, the division of the
-- arguments included: the bytes determine the identity, for fields whose sizes fit 64 bits.
pub identity_bytes-injective :
    (i j : McpServerIdentity)
    → HasSizes i
    → HasSizes j
    → identity_bytes i ≡ identity_bytes j
    → i ≡ j
unfolding identity_bytes
identity_bytes-injective i j h k e =
    let version = codes "chronos-code/mcp-launch/v1" in
    let (v, e₀) = write_split version version _ _ (omega arith) (omega arith) e in
    let (name, e₁) = write_split i.name j.name _ _ h.name k.name e₀ in
    let (origin, e₂) = write_split i.origin j.origin _ _ h.origin k.origin e₁ in
    let (config, e₃) =
      write_split i.config_digest j.config_digest _ _ h.config_digest k.config_digest e₂ in
    let (transport, e₄) = write_split i.transport j.transport _ _ h.transport k.transport e₃ in
    let (command, e₅) = write_split i.command j.command _ _ h.command k.command e₄ in
    let (count, e₆) =
      write_size_split (length i.args % 2 ^ 64) (length j.args % 2 ^ 64) _ _ (omega arith)
        (omega arith) e₅ in
    let (args, e₇) =
      write_all_split i.args j.args _ _ (omega (arith, count, h.count, k.count)) h.args k.args e₆ in
    let (url, e₈) =
      write_split i.url j.url [] [] h.url k.url
        (append-nil (write i.url) ∙ e₇ ∙ sym (append-nil (write j.url))) in
    λ t. record {
      name = name t;
      origin = origin t;
      config_digest = config t;
      transport = transport t;
      command = command t;
      args = args t;
      url = url t;
    }
