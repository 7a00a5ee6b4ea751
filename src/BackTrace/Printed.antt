-- ===== src/BackTrace/Printed.antt =====
-- What PrintBackTrace prints.
use tux_base_mmo.Common.{
  ℕ, suc, ◌+◌, ◌≤◌, ◌<◌, ◌≡◌, refl, sym, ap, ◌∙◌, ◌⊎◌, inl, inr, lt→ltb, dec_lt, false, some, List,
  [], ◌∷◌, ◌++◌, append-nil, append_assoc, length, take, get_or, arith, Text, NoNul, c_string-take,
  min, ltb, ◌==◌, if◌then◌else◌,
}
use tux_base_mmo.Verify.{Build, returns, aborts, ◌>>=◌}
use tux_base_mmo.BackTrace.{
  begin_lines, end_line, module_path, System, Frame, Report, k_module_name_len, link_read, set_at,
  module_name_of, command, resolve_addr, frame_line, print_frames, print_back_trace,
}
use tux_base_mmo.BackTrace.Lines.{shown, source_position-shown}

take-length : (text : Text) → take (length text) text ≡ text
take-length [] = refl
take-length (c ∷ rest) = ap (◌∷◌ c) (take-length rest)

first_pos : (text : Text) → NoNul text → 0 < length text → 0 < get_or text 0 0
first_pos [] plain some_text = absurd (omega arith)
first_pos (c ∷ rest) plain some_text = plain.0

pos_not_0 : (n : ℕ) → 0 < n → (n == 0) ≡ false
pos_not_0 n h = ground arith

-- The lines of the frames, for a program at a path
abbrev pub frame_lines : System → Text → ℕ → List Frame → Text
frame_lines system path number [] = []
frame_lines system path number (frame ∷ rest) =
    frame_line number frame (shown (system.popen (command path frame.ip)))
    ++ frame_lines system path (suc number) rest

-- The path of the program is in `moduleName`, or nothing is yet.
abbrev Holds : (ℕ → ℕ) → Text → Type 0
Holds memory path = (memory 0 ≡ 0) ⊎ ((0 < memory 0) × (module_path memory ≡ path))

module _ (build : Build) (system : System) (path : Text)
    (linked : system.readlink ≡ some path) where
  module _ (memory : ℕ → ℕ) (plain : NoNul path) (some_path : 0 < length path)
      (short : length path < k_module_name_len) where
    -- `moduleName` after `readlink` and the 0 behind it
    abbrev named : ℕ → ℕ
    named i = if i == length path then 0 else link_read memory path i

    module_name_lem : module_name_of build system memory ≡ returns named
    unfolding module_name_of
    module_name_lem = rw linked (
        ap (set_at (link_read memory path)) {x = min (length path) k_module_name_len}
          {y = length path} (omega arith)
        ∙ rw (lt→ltb (length path) k_module_name_len short) refl)

    named_path : module_path named ≡ path
    unfolding module_path
    named_path =
        c_string-take named 0 (length path) 511 path (omega arith) plain
          (λ j lt. ground (arith, same j)) (ground arith)
        ∙ take-length path
      where
        same : (j : ℕ) → get_or path (0 + j) 0 ≡ get_or path j 0
        same j = ap (λ k. get_or path k 0) (omega arith)

    named_first : 0 < named 0
    named_first = ground (arith, first_pos path plain some_path)

  module _ (plain : NoNul path) (some_path : 0 < length path)
      (short : length path < k_module_name_len) where
    resolve_addr_lem :
        (memory : ℕ → ℕ) (addr : ℕ)
        → Holds memory path
        → (memory' : ℕ → ℕ) × (resolve_addr build system memory addr
            ≡ returns (memory', shown (system.popen (command path addr))))
          × Holds memory' path
    unfolding resolve_addr
    resolve_addr_lem memory addr (inl empty) = (
      named memory plain some_path short,
      rw
          (
            empty,
            module_name_lem memory plain some_path short,
            named_path memory plain some_path short,
            source_position-shown,
          )
          refl,
      inr (named_first memory plain some_path short, named_path memory plain some_path short),
    )
    resolve_addr_lem memory addr (inr (filled, held)) = (
      memory,
      rw (pos_not_0 (memory 0) filled, held, source_position-shown) refl,
      inr (filled, held),
    )

    print_frames_lem :
        (r : Report) (number : ℕ) (frames : List Frame)
        → Holds r.module_name path
        → (memory : ℕ → ℕ) × (print_frames build system r number frames
            ≡ returns (record {
              module_name = memory;
              printed = r.printed ++ frame_lines system path number frames;
            }))
    unfolding print_frames
    print_frames_lem r number [] h = (
      r.module_name,
      ap (λ t. returns (record { module_name = r.module_name; printed = t }))
          (sym (append-nil r.printed)),
    )
    print_frames_lem r number (frame ∷ rest) h =
        let (memory, resolved, held) = resolve_addr_lem r.module_name frame.ip h in
        let line = frame_line number frame (shown (system.popen (command path frame.ip))) in
        let (last, printed) =
          print_frames_lem (record { module_name = memory; printed = r.printed ++ line })
            (suc number) rest held in
        (
          last,
          rw (resolved, printed)
              (ap (λ t. returns (record { module_name = last; printed = t }))
                (append_assoc r.printed line (frame_lines system path (suc number) rest))),
        )

-- A path that is too long for the array
module_name_long :
    (build : Build) (system : System) (path : Text) (memory : ℕ → ℕ)
    → system.readlink ≡ some path
    → k_module_name_len ≤ length path
    → module_name_of build system memory ≡ aborts
unfolding module_name_of
module_name_long build system path memory linked long = rw linked (
    ap (set_at (link_read memory path)) {x = min (length path) k_module_name_len}
      {y = k_module_name_len} (omega arith))

print_frames_long :
    (build : Build) (system : System) (path : Text) (r : Report) (frame : Frame) (rest : List Frame)
    → system.readlink ≡ some path
    → k_module_name_len ≤ length path
    → r.module_name 0 ≡ 0
    → print_frames build system r 0 (frame ∷ rest) ≡ aborts
unfolding print_frames resolve_addr
print_frames_long build system path r frame rest linked long fresh =
    rw (fresh, module_name_long build system path r.module_name linked long) refl

le→ltb : (a b : ℕ) → b ≤ a → ltb a b ≡ false
le→ltb a b h = ground arith

-- Where `readlink` gives a path that is not empty and has no byte 0: for a stack of at least one
-- frame, before any other trace and in either build, PrintBackTrace prints its two first lines, a
-- line for each frame from 0 on, and its last line, if the path has less than 512 bytes; from 512
-- bytes on it prints no trace, and the exception that it throws ends the process. A frame's line
-- has what addr2line prints for its address, or the frame's name and address if that begins with
-- two question marks or cannot be had.
pub print_back_trace_lines :
    (build : Build) (system : System) (path : Text) (memory : ℕ → ℕ) (frame : Frame)
    (rest : List Frame)
    → system.readlink ≡ some path
    → NoNul path
    → 0 < length path
    → memory 0 ≡ 0
    → print_back_trace build system (record { module_name = memory; printed = [] }) (frame ∷ rest)
        >>= (λ r. returns r.printed)
      ≡ (if ltb (length path) k_module_name_len
          then returns ((begin_lines ++ frame_lines system path 0 (frame ∷ rest)) ++ end_line)
          else aborts)
unfolding print_back_trace
print_back_trace_lines build system path memory frame rest linked plain some_path fresh =
    elim (dec_lt (length path) k_module_name_len) [
      | yes short ↦
          (let (last, printed) =
              print_frames_lem build system path linked plain some_path short
                (record { module_name = memory; printed = begin_lines }) 0 (frame ∷ rest)
                (inl fresh) in
            rw (lt→ltb (length path) k_module_name_len short, printed) refl)
      | no long ↦
          rw
            (
              le→ltb (length path) k_module_name_len (omega arith),
              print_frames_long build system path
                  (record { module_name = memory; printed = begin_lines }) frame rest linked
                  (omega arith) fresh,
            )
            refl
    ]
