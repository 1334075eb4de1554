-- ===== src/Web/OlmStore/Rules.antt =====
-- Rules for the calls of apps/web/lib/olm-protocol-store.ts: what holds after a call that answers, and
-- after one that throws.
use vortex_reloaded.Base.{ℕ, String, if-holds, ◌≡◌, refl, Option, none, some}
use vortex_reloaded.Base.Dict.{lookup, insert}
use vortex_reloaded.Web.OlmProtocol.{PinnedIdentity, OlmTarget, target_key, same_identity, Olm}
use vortex_reloaded.Web.OlmStore.{
  wrap_pickle, Call, ◌>>=◌, answer, expect, Act, get_or_create_wrap_key, load_account, save_account,
  load_session, save_session, unwrap_stored, check_and_pin_identity, get_pinned_identity,
  pin_identity, check_pinned, Wrapping, Browser, Fresh,
}

-- `E` is what holds after a throw.
module _ {S : Type 0} (E : S → Type 0) where
  abbrev pub After : {A : Type 0} → (A → S → Type 0) → S × Option A → Type 0
  After Q (s, none) = E s
  After Q (s, some a) = Q a s

  abbrev pub Does : {A : Type 0} → (S → Type 0) → Call S A → (A → S → Type 0) → Type 0
  Does P call Q = (s : S) → P s → After Q (call s)

  continue :
      {A B : Type 0} (Q : A → S → Type 0) (R : B → S → Type 0) (next : A → Call S B)
      → ((a : A) → Does (Q a) (next a) R)
      → (r : S × Option A) → After Q r
      → After R (let (s, o) = r in elim o [ none ↦ (s, none) | some a ↦ next a s ])
  continue Q R next hn (s, none) h = h
  continue Q R next hn (s, some a) h = hn a s h

  pub bind :
      {A B : Type 0} (P : S → Type 0) (Q : A → S → Type 0) (R : B → S → Type 0) (call : Call S A)
      (next : A → Call S B)
      → Does P call Q
      → ((a : A) → Does (Q a) (next a) R)
      → Does P (call >>= next) R
  bind P Q R call next hc hn s h = continue Q R next hn (call s) (hc s h)

  abbrev pub Keeps : {A : Type 0} → Call S A → Type 0
  Keeps call = Does E call (λ _. E)

  -- After a throw or an answer alike.
  pub after-both : {A : Type 0} (r : S × Option A) → After (λ _ s. E s) r → E r.0
  after-both (s, none) h = h
  after-both (s, some a) h = h

  -- What every step keeps, a whole call keeps.
  pub keep :
      {A B : Type 0} (call : Call S A) (next : A → Call S B)
      → Keeps call
      → ((a : A) → Keeps (next a))
      → Keeps (call >>= next)
  keep = bind E (λ _. E) (λ _. E)

  pub keep-expect : {A : Type 0} (r : Option A) → Keeps (expect r)
  keep-expect none s h = h
  keep-expect (some a) s h = h

-- What each write of a call keeps, all calls keep.
pub record Stable (w : Wrapping) (E : Browser w → Type 0) : Type 0 where
  pub on_key :
      (b : Browser w) (k : w.Key) → b.wrap_key ≡ none → E b → E (record b { wrap_key = some k })
  pub on_device : (b : Browser w) (id : String) → E b → E (record b { device_id = some id })
  pub on_account :
      (b : Browser w) (k : w.Key) (iv : ℕ) (pickle : String)
      → b.wrap_key ≡ some k
      → E b
      → E (record b { account = some (wrap_pickle w k iv pickle) })
  pub on_session :
      (b : Browser w) (k : w.Key) (iv : ℕ) (key pickle : String)
      → b.wrap_key ≡ some k
      → E b
      → E (record b { sessions = insert key (wrap_pickle w k iv pickle) b.sessions })
  pub on_pin :
      (b : Browser w) (key : String) (p : PinnedIdentity)
      → lookup key b.pinned ≡ none
      → E b
      → E (record b { pinned = insert key p b.pinned })

module _ (o : Olm) (w : Wrapping) (E : Browser w → Type 0) (stable : Stable w E) where
  -- While the wrap key is this one.
  abbrev pub With : w.Key → Browser w → Type 0
  With k b = E b × (b.wrap_key ≡ some k)

  key-keeps :
      (f : Fresh w) (b : Browser w) (r : Option w.Key)
      → b.wrap_key ≡ r
      → E b
      → After E With (elim r [
        | some k ↦ (b, some k)
        | none ↦ (record b { wrap_key = some f.key }, some f.key)
      ])
  key-keeps f b none q h = (stable.on_key b f.key q h, refl)
  key-keeps f b (some k) q h = (h, q)

  pub get_or_create_wrap_key-keeps : (f : Fresh w) → Does E E (get_or_create_wrap_key w f) With
  unfolding get_or_create_wrap_key
  get_or_create_wrap_key-keeps f b h = key-keeps f b b.wrap_key refl h

  pub narrow : {A : Type 0} (k : w.Key) (r : Option A) → Does E (With k) (expect r) (λ _. With k)
  narrow k none b h = h.0
  narrow k (some a) b h = h

  pub widen :
      {A : Type 0} (k : w.Key) (call : Act w A) → Keeps E call → Does E (With k) call (λ _. E)
  widen k call h b e = h b e.0

  pub done : {A : Type 0} (k : w.Key) (a : A) → Does E (With k) (answer a) (λ _. E)
  done k a b h = h.0

  pub with_key :
      {A : Type 0} (f : Fresh w) (next : w.Key → Act w A)
      → ((k : w.Key) → Does E (With k) (next k) (λ _. E))
      → Keeps E (get_or_create_wrap_key w f >>= next)
  with_key f next =
      bind E E With (λ _. E) (get_or_create_wrap_key w f) next (get_or_create_wrap_key-keeps f)

  pub step :
      {A B : Type 0} (k : w.Key) (call : Act w A) (next : A → Act w B)
      → Does E (With k) call (λ _. With k)
      → ((a : A) → Does E (With k) (next a) (λ _. E))
      → Does E (With k) (call >>= next) (λ _. E)
  step k = bind E (With k) (λ _. With k) (λ _. E)

  pub load_account-keeps : (k : w.Key) → Does E (With k) (load_account w k) (λ _. With k)
  unfolding load_account
  load_account-keeps k b h = narrow k (unwrap_stored w k b.account) b h

  pub load_session-keeps :
      (target : OlmTarget) (k : w.Key) → Does E (With k) (load_session w target k) (λ _. With k)
  unfolding load_session
  load_session-keeps target k b h =
      narrow k (unwrap_stored w k (lookup (target_key target) b.sessions)) b h

  pub save_account-keeps :
      (iv : ℕ) (k : w.Key) (a : String) → Does E (With k) (save_account w iv k a) (λ _. With k)
  unfolding save_account
  save_account-keeps iv k a b h = (stable.on_account b k iv a h.1 h.0, h.1)

  pub save_session-keeps :
      (iv : ℕ) (target : OlmTarget) (k : w.Key) (s : String)
      → Does E (With k) (save_session w iv target k s) (λ _. With k)
  unfolding save_session
  save_session-keeps iv target k s b h =
      (stable.on_session b k iv (target_key target) s h.1 h.0, h.1)

  pin-keeps :
      (target : OlmTarget) (k : w.Key) (p : PinnedIdentity) (b : Browser w)
      (r : Option PinnedIdentity)
      → lookup (target_key target) b.pinned ≡ r
      → With k b
      → After E (λ _. With k) (check_pinned w target p r b)
  unfolding pin_identity
  pin-keeps target k p b none q h = (stable.on_pin b (target_key target) p q h.0, h.1)
  pin-keeps target k p b (some p') q h =
      if-holds {A = Act w (Unit {0})} (λ call. After E (λ _. With k) (call b)) (same_identity p' p)
        (λ _. h) (λ _. h.0)

  pub check_and_pin_identity-keeps :
      (target : OlmTarget) (k : w.Key) (p : PinnedIdentity)
      → Does E (With k) (check_and_pin_identity w target p) (λ _. With k)
  unfolding check_and_pin_identity get_pinned_identity
  check_and_pin_identity-keeps target k p b h =
      pin-keeps target k p b (lookup (target_key target) b.pinned) refl h
