-- ===== src/Logger/Lines.antt =====
-- What a file holds after several messages.
use tux_base_mmo.Common.{
  ℕ, suc, ◌≡◌, refl, sym, ap, ◌∙◌, Option, some, List, [], ◌∷◌, ◌++◌, append-nil, append_assoc,
  Text, is_some, ==_refl,
}
use tux_base_mmo.Verify.{Build, Outcome, returns}
use tux_base_mmo.Logger.{file_sink, World, write_file, and_then, sink_log}
use tux_base_mmo.Logger.Fanout.{file_log_open}

-- Messages one after another to the sink at an address
abbrev pub log_all : Build → ℕ → ℕ → List Text → World → Outcome (Option World)
log_all build fuel a [] w = returns (some w)
log_all build fuel a (message ∷ rest) w =
    and_then (sink_log build fuel message w (some a)) (λ w'. log_all build fuel a rest w')

abbrev pub concat : List Text → Text
concat [] = []
concat (message ∷ rest) = message ++ concat rest

one_message :
    (build : Build) (fuel a f : ℕ) (message text : Text) (w : World)
    → w.sinks a ≡ some (file_sink f)
    → w.files f ≡ some text
    → sink_log build (suc fuel) message w (some a) ≡ returns (some (write_file w f message))
unfolding sink_log
one_message build fuel a f message text w e h =
    rw (e, file_log_open build w f message (ap is_some h)) refl

written :
    (f : ℕ) (message text : Text) (w : World)
    → w.files f ≡ some text
    → (write_file w f message).files f ≡ some (text ++ message)
written f message text w h = rw (==_refl f, h) refl

-- Of the messages that go to a file, the file gets their bytes and nothing between or behind them, in
-- either build: it then holds what it held before and the concatenation of the messages, so where one
-- ends and the next begins is lost.
pub file_concatenates :
    (build : Build) (fuel a f : ℕ) (messages : List Text) (text : Text) (w : World)
    → w.sinks a ≡ some (file_sink f)
    → w.files f ≡ some text
    → (w' : World) × (log_all build (suc fuel) a messages w ≡ returns (some w'))
      × (w'.files f ≡ some (text ++ concat messages))
file_concatenates build fuel a f [] text w e h = (w, refl, h ∙ ap some (sym (append-nil text)))
file_concatenates build fuel a f (message ∷ rest) text w e h =
    let (w', done, holds) =
      file_concatenates build fuel a f rest (text ++ message) (write_file w f message) e
        (written f message text w h) in
    (
      w',
      rw (one_message build fuel a f message text w e h) done,
      holds ∙ ap some (append_assoc text message (concat rest)),
    )
