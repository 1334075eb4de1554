-- ===== src/Web/MessageOutbox/Laws.antt =====
-- A message stays in the outbox, with its failures counted, until it is sent or cancelled.
use vortex_reloaded.Base.{
  ℕ, ◌+◌, String, ◌≡◌, true, false, List, [], ◌∷◌, ◌++◌, Option, none, some, arith, find, any, map,
  if◌then◌else◌, str_eq, eq_iff, All, Bool-cases, inl, inr, subst,
}
use vortex_reloaded.Web.MessageOutbox.{
  OutboxMessage, Outbox, enqueue, mark_sending, mark_failed, mark_sent, cancel, reset_sending,
  is_sending, as_sending, as_failed, as_pending, without,
}

pub data Op : Type 0 where
  enqueues : (now : ℕ) → (date channel content : String) → Op
  sends : String → Op
  fails : (id error : String) → Op
  sents cancels : String → Op
  resets : Op

abbrev pub find_message : String → Outbox → Option OutboxMessage
find_message id s = find (λ m. str_eq m.client_id id) s.messages

module _ (decimal : ℕ → String) (trim : String → String) where
  -- A call that throws changes nothing.
  unfoldable pub step : Op → Outbox → Outbox
  step (enqueues now date channel content) s =
      elim (enqueue decimal trim now date channel content s) [ none ↦ s | some r ↦ r.0 ]
  step (sends id) s = mark_sending id s
  step (fails id why) s = mark_failed id why s
  step (sents id) s = mark_sent id s
  step (cancels id) s = cancel id s
  step resets s = reset_sending s

  unfoldable pub run : List Op → Outbox → Outbox
  run [] s = s
  run (op ∷ ops) s = run ops (step op s)

-- The call neither sends nor cancels the message.
abbrev pub Keeps : String → Op → Type 0
Keeps id (sents other) = str_eq id other ≡ false
Keeps id (cancels other) = str_eq id other ≡ false
Keeps id _ = Unit

-- How often a history reports the failure of the message.
abbrev pub failures : String → List Op → ℕ
failures id [] = 0
failures id (fails other why ∷ ops) = (if str_eq id other then 1 else 0) + failures id ops
failures id (_ ∷ ops) = failures id ops

-- The message `m` is in the outbox as one with the same channel and content and `n` retries.
abbrev pub IsHeld : String → (channel content : String) → ℕ → Outbox → Type 0
IsHeld id channel content n s =
    (m : OutboxMessage) × (find_message id s ≡ some m)
    × (m.channel_id ≡ channel)
    × (m.content ≡ content)
    × (m.retries ≡ n)

find-append :
    (id : String) (m : OutboxMessage) (ms ns : List OutboxMessage)
    → find (λ x. str_eq x.client_id id) ms ≡ some m
    → find (λ x. str_eq x.client_id id) (ms ++ ns) ≡ some m
find-append id m [] ns h = cc
find-append id m (x ∷ ms) ns h = ground (arith, find-append id m ms ns)

find-map_same :
    (id : String) (f : OutboxMessage → OutboxMessage) (m : OutboxMessage) (ms : List OutboxMessage)
    → ((x : OutboxMessage) → (f x).client_id ≡ x.client_id)
    → find (λ x. str_eq x.client_id id) ms ≡ some m
    → find (λ x. str_eq x.client_id id) (map f ms) ≡ some (f m)
find-map_same id f m [] k h = cc
find-map_same id f m (x ∷ ms) k h = elim (Bool-cases (str_eq x.client_id id)) [
  | inl e ↦
      let same : x ≡ m = ground arith in
      subst (λ y. find (λ z. str_eq z.client_id id) (map f (x ∷ ms)) ≡ some (f y)) same
        (simp (k x, e))
  | inr e ↦ rw (k x, e) (find-map_same id f m ms k (rw e at h))
]

find-without :
    (id other : String) (m : OutboxMessage) (ms : List OutboxMessage)
    → str_eq id other ≡ false
    → find (λ x. str_eq x.client_id id) ms ≡ some m
    → find (λ x. str_eq x.client_id id) (without other ms) ≡ some m
find-without id other m [] k h = cc
find-without id other m (x ∷ ms) k h = ground (
  arith,
  find-without id other m ms k,
  eq_iff x.client_id id,
  eq_iff x.client_id other,
  eq_iff id other,
)

find-id :
    (id : String) (m : OutboxMessage) (ms : List OutboxMessage)
    → find (λ x. str_eq x.client_id id) ms ≡ some m
    → str_eq id m.client_id ≡ true
find-id id m [] h = cc
find-id id m (x ∷ ms) h =
    ground (arith, find-id id m ms, eq_iff x.client_id id, eq_iff id m.client_id)

as_sending-client_id : (id : String) (x : OutboxMessage) → (as_sending id x).client_id ≡ x.client_id
as_sending-client_id id x = ground arith

as_failed-client_id :
    (id why : String) (x : OutboxMessage) → (as_failed id why x).client_id ≡ x.client_id
as_failed-client_id id why x = ground arith

as_pending-client_id : (x : OutboxMessage) → (as_pending x).client_id ≡ x.client_id
as_pending-client_id x = ground arith

failures-cons :
    (id : String) (op : Op) (ops : List Op) (n : ℕ)
    → n + failures id (op ∷ []) + failures id ops ≡ n + failures id (op ∷ ops)
failures-cons id (fails other why) ops n = omega arith
failures-cons id (enqueues now date ch text) ops n = omega arith
failures-cons id (sends other) ops n = omega arith
failures-cons id (sents other) ops n = omega arith
failures-cons id (cancels other) ops n = omega arith
failures-cons id resets ops n = omega arith

module _ (decimal : ℕ → String) (trim : String → String) where
  step-IsHeld :
      (op : Op) (id channel content : String) (n : ℕ) (s : Outbox)
      → Keeps id op
      → IsHeld id channel content n s
      → IsHeld id channel content (n + failures id (op ∷ [])) (step decimal trim op s)
  unfolding step enqueue
  step-IsHeld (enqueues now date ch text) id channel content n s k (m, f, c, t, r) = (
    m,
    elim (Bool-cases (str_eq ch "")) [
      | inl e ↦ rw (e, step, enqueue) f
      | inr e ↦ elim (Bool-cases (str_eq (trim text) "")) [
        | inl b ↦ rw (e, b, step, enqueue) f
        | inr b ↦ rw (e, b, step, enqueue) (find-append id m s.messages _ f)
      ]
    ],
    c,
    t,
    omega arith,
  )
  step-IsHeld (sends other) id channel content n s k (m, f, c, t, r) =
      unfold mark_sending in
      (
        as_sending other m,
        find-map_same id (as_sending other) m s.messages (as_sending-client_id other) f,
        ground arith,
        ground arith,
        ground arith,
      )
  step-IsHeld (fails other why) id channel content n s k (m, f, c, t, r) =
      unfold mark_failed in
      (
        as_failed other why m,
        find-map_same id (as_failed other why) m s.messages (as_failed-client_id other why) f,
        ground arith,
        ground arith,
        ground (
          arith,
          find-id id m s.messages f,
          eq_iff id m.client_id,
          eq_iff m.client_id other,
          eq_iff id other,
        ),
      )
  step-IsHeld (sents other) id channel content n s k (m, f, c, t, r) =
      unfold mark_sent in (m, find-without id other m s.messages k f, c, t, omega arith)
  step-IsHeld (cancels other) id channel content n s k (m, f, c, t, r) =
      unfold cancel in (m, find-without id other m s.messages k f, c, t, omega arith)
  step-IsHeld resets id channel content n s k (m, f, c, t, r) =
      elim (Bool-cases (any (λ x. is_sending x.status) s.messages)) [
        | inl e ↦
            unfold reset_sending in
            (
              as_pending m,
              rw e (find-map_same id as_pending m s.messages as_pending-client_id f),
              ground arith,
              ground arith,
              ground arith,
            )
        | inr e ↦ unfold reset_sending in (m, rw e f, c, t, omega arith)
      ]

  -- Over any sequence of calls that neither reports a message as sent nor cancels it: the message stays
  -- in the outbox, with its channel and its content, and its retries grow by the failures reported of it.
  pub run-IsHeld :
      (ops : List Op) (id channel content : String) (n : ℕ) (s : Outbox)
      → All (Keeps id) ops
      → IsHeld id channel content n s
      → IsHeld id channel content (n + failures id ops) (run decimal trim ops s)
  unfolding run
  run-IsHeld [] id channel content n s k h =
      subst (λ x. IsHeld id channel content x s) (omega arith) h
  run-IsHeld (op ∷ ops) id channel content n s k h =
      subst (λ x. IsHeld id channel content x (run decimal trim ops (step decimal trim op s)))
        (failures-cons id op ops n)
        (run-IsHeld ops id channel content (n + failures id (op ∷ [])) _ k.1
          (step-IsHeld op id channel content n s k.0 h))
