-- ===== src/BoostSession/Sections/Tests.antt =====
-- A history of a session in which a Send comes between the parts of a flush.
use tux_base_mmo.Common.{◌≡◌, refl, false, some, [], ◌∷◌, arith}
use tux_base_mmo.Verify.{debug, returns}
use tux_base_mmo.BoostSession.{BufferPtr}
use tux_base_mmo.BoostSession.Steps
use tux_base_mmo.BoostSession.Sections.{
  Sections, send_locks, posts_flush, flush_locks, writes, ends, end_locks, step, Reach, start,
  later,
}
use tux_base_mmo.BoostSession.Sections.Linked.{seen}
use tux_base_mmo.BoostSession.Sections.Refine.{sections_refine, no_race}

abbrev one_byte : BufferPtr
one_byte = some (record { data_bytes = 1 ∷ [] })

abbrev two_bytes : BufferPtr
two_bytes = some (record { data_bytes = 2 ∷ 3 ∷ [] })

-- The first write ends while the second buffer is queued.
between : (f : Sections) × Reach debug f
unfolding step
between = (
  _,
  later (ends false)
      (later writes
        (later (send_locks two_bytes)
          (later flush_locks
            (later posts_flush (later (send_locks one_byte) start (λ e. cc) refl) (omega arith)
              refl)
            (omega arith) refl)
          (λ e. cc) refl)
        refl refl)
      (λ e. cc) refl,
)

sections_refine_example : Steps.Reach debug (seen between.0)
sections_refine_example = sections_refine between.1

no_race_example :
    (g : Sections) × (step debug between.0 (end_locks (one_byte ∷ []) false) ≡ returns g)
unfolding between
no_race_example = no_race (end_locks (one_byte ∷ []) false) between.1 refl
