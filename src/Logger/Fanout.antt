-- ===== src/Logger/Fanout.antt =====
-- Which sinks a message reaches.
use tux_base_mmo.Common.{
  ℕ, zero, suc, ◌≤◌, ◌<◌, ◌≡◌, refl, sym, ap, subst, ℕ_discrete, ◌∙◌, true, Option, none, some,
  List, [], ◌∷◌, ◌++◌, Text, is_some, arith,
}
use tux_base_mmo.Verify.{Build, debug, release, returns}
use tux_base_mmo.Logger.{
  Sink, null_sink, console_sink, file_sink, multi_sink, World, put, append_to, console_log,
  write_file, file_log, log_each, log_object, sink_log,
}

-- Where a message is written
pub data Leaf : Type 0 where
  to_console : Leaf
  to_file : ℕ → Leaf

abbrev pub gather : (Option ℕ → List Leaf) → List (Option ℕ) → List Leaf
gather below [] = []
gather below (sink ∷ rest) = below sink ++ gather below rest

-- The leaves under the sink at an address, in the order in which `Log` comes to them. A sink whose
-- members stand at lower addresses has no more levels below it than its address says.
abbrev pub leaves_of : (Option ℕ → List Leaf) → Option Sink → List Leaf
leaves_of below none = []
leaves_of below (some null_sink) = []
leaves_of below (some console_sink) = to_console ∷ []
leaves_of below (some (file_sink f)) = to_file f ∷ []
leaves_of below (some (multi_sink sinks)) = gather below sinks

unfoldable pub leaves : (ℕ → Option Sink) → ℕ → Option ℕ → List Leaf
leaves sinks zero sink = []
leaves sinks (suc n) none = []
leaves sinks (suc n) (some a) = leaves_of (leaves sinks n) (sinks a)

-- One copy of a message for one leaf, and for several in order.
abbrev pub write_leaf : Text → Leaf → World → World
write_leaf message to_console w = console_log w message
write_leaf message (to_file f) w = write_file w f message

abbrev pub write_leaves : Text → List Leaf → World → World
write_leaves message [] w = w
write_leaves message (leaf ∷ rest) w = write_leaves message rest (write_leaf message leaf w)

-- Every member of a sink is an object at a lower address.
abbrev pub Members : (ℕ → Option Sink) → ℕ → List (Option ℕ) → Type 0
Members sinks a [] = Unit {0}
Members sinks a (none ∷ rest) = ⊥
Members sinks a (some b ∷ rest) = (b < a) × (is_some (sinks b) ≡ true) × Members sinks a rest

pub record Wired (w : World) : Type 0 where
  pub open_files : (a f : ℕ) → w.sinks a ≡ some (file_sink f) → is_some (w.files f) ≡ true
  pub members :
      (a : ℕ) (sinks : List (Option ℕ))
      → w.sinks a ≡ some (multi_sink sinks)
      → Members w.sinks a sinks

is_some-append_to : (o : Option Text) (message : Text) → is_some (append_to o message) ≡ is_some o
is_some-append_to none message = refl
is_some-append_to (some text) message = refl

put_open :
    (files : ℕ → Option Text) (f g : ℕ) (message : Text)
    → is_some (files g) ≡ true
    → is_some (put files f (append_to (files f) message) g) ≡ true
put_open files f g message h = elim (ℕ_discrete g f) [
  | yes e ↦ ground (arith, is_some-append_to (files f) message, ap (λ k. is_some (files k)) e)
  | no e ↦ ground arith
]

pub file_log_open :
    (build : Build) (w : World) (f : ℕ) (message : Text)
    → is_some (w.files f) ≡ true
    → file_log build w f message ≡ returns (write_file w f message)
file_log_open debug w f message h = rw h refl
file_log_open release w f message h = refl

write_leaf-Wired :
    (message : Text) (leaf : Leaf) (w : World) → Wired w → Wired (write_leaf message leaf w)
write_leaf-Wired message to_console w v = record { open_files = v.open_files; members = v.members }
write_leaf-Wired message (to_file f) w v = record {
  open_files = λ a g e. still_open g (v.open_files a g e);
  members = v.members;
}
  where
    still_open :
        (g : ℕ) → is_some (w.files g) ≡ true → is_some ((write_file w f message).files g) ≡ true
    still_open g h = put_open w.files f g message h

write_leaf_sinks :
    (message : Text) (leaf : Leaf) (w : World) → (write_leaf message leaf w).sinks ≡ w.sinks
write_leaf_sinks message to_console w = refl
write_leaf_sinks message (to_file f) w = refl

write_leaves-Wired :
    (message : Text) (ls : List Leaf) (w : World) → Wired w → Wired (write_leaves message ls w)
write_leaves-Wired message [] w v = v
write_leaves-Wired message (leaf ∷ rest) w v =
    write_leaves-Wired message rest (write_leaf message leaf w) (write_leaf-Wired message leaf w v)

write_leaves_sinks :
    (message : Text) (ls : List Leaf) (w : World) → (write_leaves message ls w).sinks ≡ w.sinks
write_leaves_sinks message [] w = refl
write_leaves_sinks message (leaf ∷ rest) w =
    write_leaves_sinks message rest (write_leaf message leaf w) ∙ write_leaf_sinks message leaf w

write_leaves-append :
    (message : Text) (xs ys : List Leaf) (w : World)
    → write_leaves message (xs ++ ys) w ≡ write_leaves message ys (write_leaves message xs w)
write_leaves-append message [] ys w = refl
write_leaves-append message (leaf ∷ xs) ys w =
    write_leaves-append message xs ys (write_leaf message leaf w)

module _ (build : Build) (message : Text) where
  -- A call on the sink at an address below the fuel writes to its leaves.
  abbrev Reaches : ℕ → Type 0
  Reaches n =
      (w : World) (a : ℕ)
      → Wired w
      → a < n
      → is_some (w.sinks a) ≡ true
      → sink_log build n message w (some a)
        ≡ returns (some (write_leaves message (leaves w.sinks n (some a)) w))

  log_each-leaves :
      (n a : ℕ) (sinks : List (Option ℕ)) (w : World)
      → Reaches n
      → Wired w
      → a ≤ n
      → Members w.sinks a sinks
      → log_each (λ w' sink. sink_log build n message w' sink) sinks w
        ≡ returns (some (write_leaves message (gather (leaves w.sinks n) sinks) w))
  unfolding log_each
  log_each-leaves n a [] w ih v low h = refl
  log_each-leaves n a (none ∷ rest) w ih v low h = absurd h
  log_each-leaves n a (some b ∷ rest) w ih v low h =
      let t = write_leaves message (leaves w.sinks n (some b)) w in
      let same = write_leaves_sinks message (leaves w.sinks n (some b)) w in
      let later =
        log_each-leaves n a rest t ih (write_leaves-Wired message (leaves w.sinks n (some b)) w v)
          low (subst (λ s. Members s a rest) (sym same) (h.2)) in
      rw
        (
          ih w b v (omega (arith, h.0)) (h.1),
          later,
          write_leaves-append message (leaves w.sinks n (some b)) (gather (leaves w.sinks n) rest)
              w,
        )
        (ap (λ s. returns (some (write_leaves message (gather (leaves s n) rest) t))) same)

  object-leaves :
      (n a : ℕ) (w : World) (object : Option Sink)
      → Reaches n
      → Wired w
      → a ≤ n
      → w.sinks a ≡ object
      → is_some object ≡ true
      → log_object build (λ w' sink. sink_log build n message w' sink) w message object
        ≡ returns (some (write_leaves message (leaves_of (leaves w.sinks n) object) w))
  object-leaves n a w none ih v low e h = absurd (cc h)
  object-leaves n a w (some null_sink) ih v low e h = refl
  object-leaves n a w (some console_sink) ih v low e h = refl
  object-leaves n a w (some (file_sink f)) ih v low e h =
      rw (file_log_open build w f message (v.open_files a f e)) refl
  object-leaves n a w (some (multi_sink sinks)) ih v low e h =
      log_each-leaves n a sinks w ih v low (v.members a sinks e)

  pub sink_log-leaves : (n : ℕ) → Reaches n
  unfolding sink_log leaves
  sink_log-leaves zero w a v low h = absurd (omega arith)
  sink_log-leaves (suc n) w a v low h =
      object-leaves n a w (w.sinks a) (sink_log-leaves n) v (omega arith) refl h
