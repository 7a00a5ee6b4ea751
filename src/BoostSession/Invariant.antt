-- ===== src/BoostSession/Invariant.antt =====
-- What holds in every history of a session.
use mathlib.Core.List.{map-append}
use tux_base_mmo.Common.{
  ℕ, ◌+◌, ◌≤◌, ◌<◌, ◌≡◌, ◌≢◌, refl, ap, Bool, true, false, Option, none, some, List, [], ◌∷◌, ◌++◌,
  map, length, leb, if◌then◌else◌, arith,
}
use tux_base_mmo.Verify.{Build, debug, release, Outcome, returns}
use tux_base_mmo.SendBuffer.{SendBuffer}
use tux_base_mmo.BoostSession.{
  BoostSession, BufferPtr, k_max_send_queue_size, send, send_over, send_under, gather,
}
use tux_base_mmo.BoostSession.Steps.{History, begin, tag}

-- No pointer of the list is null.
abbrev pub Present : List BufferPtr → Type 0
Present [] = Unit {0}
Present (none ∷ rest) = ⊥
Present (some b ∷ rest) = Present rest

pub Present-append : (xs ys : List BufferPtr) → Present xs → Present ys → Present (xs ++ ys)
Present-append [] ys p q = q
Present-append (none ∷ xs) ys p q = absurd p
Present-append (some b ∷ xs) ys p q = Present-append xs ys p q

pub gather-Present :
    (xs : List BufferPtr) → Present xs → (spans : List (List ℕ)) × (gather xs ≡ returns spans)
gather-Present [] p = ([], refl)
gather-Present (none ∷ xs) p = absurd p
gather-Present (some b ∷ xs) p =
    let (spans, e) = gather-Present xs p in (b.data_bytes ∷ spans, rw e)

abbrev pub writes : Option (List (List ℕ)) → ℕ
writes none = 0
writes (some spans) = 1

abbrev pub one_if : Bool → ℕ
one_if true = 1
one_if false = 0

abbrev pub pointers : List (BufferPtr × Bool) → List BufferPtr
pointers = map (λ p. p.0)

abbrev pub is_nonempty : List BufferPtr → Bool
is_nonempty [] = false
is_nonempty (b ∷ rest) = true

pub record SessionOk (s : BoostSession) : Type 0 where
  pub bounded : length s.send_queue ≤ k_max_send_queue_size
  pub queue_present : Present s.send_queue
  pub one_worker : s.posted_flushes + writes s.in_flight ≡ one_if s.is_sending
  pub resting : s.in_flight ≡ none → s.sending_buffers ≡ []
  pub writing :
      (spans : List (List ℕ)) → s.in_flight ≡ some spans → gather s.sending_buffers ≡ returns spans
  pub woken : s.send_queue ≢ [] → s.is_sending ≡ true

pub record Inv (h : History) : Type 0 where
  pub session : SessionOk h.session
  pub in_order :
      h.accepted ≡ pointers h.finished ++ (h.session.sending_buffers ++ h.session.send_queue)

pub gather_same :
    {o : Outcome (List (List ℕ))} {xs ys : List (List ℕ)}
    → o ≡ returns xs
    → some xs ≡ some ys
    → o ≡ returns ys
gather_same p q = cc

pub no_writes : (o : Option (List (List ℕ))) → writes o ≡ 0 → o ≡ none
no_writes none e = refl
no_writes (some spans) e = absurd (omega arith)

pub writes_busy : (o : Option (List (List ℕ))) → o ≢ none → writes o ≡ 1
writes_busy none e = absurd (e refl)
writes_busy (some spans) e = refl

pub one_if-le : (b : Bool) → one_if b ≤ 1
one_if-le true = omega arith
one_if-le false = omega arith

pub one_if_pos : (b : Bool) → 0 < one_if b → b ≡ true
one_if_pos true h = refl
one_if_pos false h = absurd (omega arith)

pointers-tag : (b : Bool) (xs : List BufferPtr) → pointers (tag b xs) ≡ xs
pointers-tag b [] = refl
pointers-tag b (x ∷ xs) = ap (◌∷◌ x) (pointers-tag b xs)

pub pointers-append_tag :
    (fs : List (BufferPtr × Bool)) (b : Bool) (xs : List BufferPtr)
    → pointers (fs ++ tag b xs) ≡ pointers fs ++ xs
pointers-append_tag fs b xs = rw (map-append, pointers-tag b xs)

pub send_lem :
    (build : Build) (s : BoostSession) (b : SendBuffer)
    → send build s (some b) ≡ (
        if leb k_max_send_queue_size (length s.send_queue)
        then returns (send_over s, false)
        else returns (send_under s (some b), true))
unfolding send
send_lem debug s b = refl
send_lem release s b = refl

pub begin-Inv : Inv begin
begin-Inv = record {
  session = record {
    bounded = omega arith;
    queue_present = tt;
    one_worker = refl;
    resting = λ e. refl;
    writing = λ spans e. cc;
    woken = λ e. absurd (e refl);
  };
  in_order = refl;
}
