-- ===== src/BackTrace/Windows.antt =====
-- 01_Server/Src/01_ServerBase/Source/Verify/BackTrace_win32.cpp. What DbgHelp knows of an address and
-- `UnDecorateSymbolName` are parameters.
use tux_base_mmo.Common.{
  ℕ, suc, ◌≡◌, refl, ◌∙◌, Bool, true, false, ◌&&◌, Option, none, some, List, [], ◌∷◌, ◌++◌, take,
  Text, ascii, decimal, is_some, if◌then◌else◌,
}
use tux_base_mmo.Verify.{Outcome, returns, undefined, ◌>>=◌}

-- A frame: what `SymFromAddr` and `SymGetLineFromAddr64` find.
pub record Frame : Type 0 where
  pub symbol : Option Text
  pub line : Option (Text × ℕ)

-- `kMaxFrame`
abbrev pub k_max_frame : ℕ
k_max_frame = 100

-- `symbol->Name` after `SymFromAddr`, which leaves the name of the frame before if it fails.
abbrev pub name_after : Option Text → Option Text → Option Text
name_after old none = old
name_after old (some name) = some name

-- `fmt::println("[{}]: {}()\n{}:{}", ...)`
abbrev pub frame_text : (Text → Text) → ℕ → Text → Text × ℕ → Text
frame_text undecorate index name (file_name, line_number) =
    ascii "["
    ++ (decimal index
        ++ (ascii "]: "
            ++ (undecorate name
                ++ (ascii "()\n"
                    ++ (file_name ++ (ascii ":" ++ (decimal line_number ++ ascii "\n")))))))

-- The bytes behind `malloc` and the members of `line` are not initialised: to read them is undefined.
abbrev pub print_frame : (Text → Text) → ℕ → Option Text → Option (Text × ℕ) → Outcome Text
print_frame undecorate index (some name) (some line) =
    returns (frame_text undecorate index name line)
print_frame undecorate index _ _ = undefined

-- The loop over the frames, with the name that is in `symbol`
unfoldable pub print_frames : (Text → Text) → ℕ → Option Text → List Frame → Outcome Text
print_frames undecorate index old [] = returns []
print_frames undecorate index old (frame ∷ rest) = do
  text ← print_frame undecorate index (name_after old frame.symbol) frame.line
  others ← print_frames undecorate (suc index) (name_after old frame.symbol) rest
  returns (text ++ others)

-- `PrintBackTrace`; `CaptureStackBackTrace` gives at most 100 frames.
unfoldable pub print_back_trace : (Text → Text) → List Frame → Outcome Text
print_back_trace undecorate stack = print_frames undecorate 0 none (take k_max_frame stack)

-- Every frame has its line.
abbrev pub all_lines : List Frame → Bool
all_lines [] = true
all_lines (frame ∷ rest) = is_some frame.line && all_lines rest

-- The name that is shown: the frame's own, or that of the last frame before it that has one.
abbrev pub shown : Text → Option Text → Text
shown old none = old
shown old (some name) = name

abbrev pub line_text : (Text → Text) → ℕ → Text → Option (Text × ℕ) → Text
line_text undecorate index name none = []
line_text undecorate index name (some line) = frame_text undecorate index name line

abbrev pub listing : (Text → Text) → ℕ → Text → List Frame → Text
listing undecorate index old [] = []
listing undecorate index old (frame ∷ rest) =
    line_text undecorate index (shown old frame.symbol) frame.line
    ++ listing undecorate (suc index) (shown old frame.symbol) rest

module _ (undecorate : Text → Text) where
  name_after-some : (old : Text) (o : Option Text) → name_after (some old) o ≡ some (shown old o)
  name_after-some old none = refl
  name_after-some old (some name) = refl

  bind_all :
      (b : Bool) (text others : Text)
      → (if b then returns others else undefined) >>= (λ t. returns (text ++ t))
        ≡ (if b then returns (text ++ others) else undefined)
  bind_all true text others = refl
  bind_all false text others = refl

  print_frames-listing :
      (index : ℕ) (old : Text) (frames : List Frame)
      → print_frames undecorate index (some old) frames
        ≡ (if all_lines frames then returns (listing undecorate index old frames) else undefined)
  unfolding print_frames
  print_frames-listing index old [] = refl
  print_frames-listing index old (frame ∷ rest) =
      rw
        (
          name_after-some old frame.symbol,
          print_frames-listing (suc index) (shown old frame.symbol) rest,
        )
        (with_line (frame.line))
    where
      name : Text
      name = shown old frame.symbol

      with_line :
          (line : Option (Text × ℕ))
          → (print_frame undecorate index (some name) line >>= λ text.
              (if all_lines rest
                then returns (listing undecorate (suc index) name rest)
                else undefined)
              >>= λ others. returns (text ++ others))
            ≡ (if is_some line && all_lines rest
                then returns (
                    line_text undecorate index name line
                    ++ listing undecorate (suc index) name rest)
                else undefined)
      with_line none = refl
      with_line (some line) =
          bind_all (all_lines rest) (frame_text undecorate index name line)
            (listing undecorate (suc index) name rest)

first_named :
    (undecorate : Text → Text) (name : Text) (frame : Frame) (rest : List Frame)
    → frame.symbol ≡ some name
    → print_frames undecorate 0 none (frame ∷ rest)
      ≡ print_frames undecorate 0 (some name) (frame ∷ rest)
unfolding print_frames
first_named undecorate name frame rest named = rw named refl

-- Where the first frame has a name: PrintBackTrace prints the first hundred frames in order, each under
-- its own name or that of the last frame that has one, if each of them has a line; else it reads a line
-- that was never written.
print_back_trace-listing :
    (undecorate : Text → Text) (name : Text) (frame : Frame) (rest : List Frame)
    → frame.symbol ≡ some name
    → print_back_trace undecorate (frame ∷ rest) ≡ (
        if all_lines (take k_max_frame (frame ∷ rest))
        then returns (listing undecorate 0 name (take k_max_frame (frame ∷ rest)))
        else undefined)
unfolding print_back_trace
print_back_trace-listing undecorate name frame rest named =
    first_named undecorate name frame (take 99 rest) named
    ∙ print_frames-listing undecorate 0 name (frame ∷ take 99 rest)
