-- ===== src/BackTrace/Tests.antt =====
-- Traces of small stacks.
use tux_base_mmo.Common.{
  ◌≡◌, refl, none, some, [], ◌∷◌, ◌++◌, length, replicate, ascii, decimal, ltb, if◌then◌else◌,
  arith,
}
use tux_base_mmo.Verify.{debug, release, returns, aborts, ◌>>=◌}
use tux_base_mmo.BackTrace.{
  System, Frame, k_module_name_len, begin_lines, end_line, hex, read_lines, module_name_of,
  print_back_trace,
}
use tux_base_mmo.BackTrace.Printed.{frame_lines, print_back_trace_lines}

-- addr2line knows every address.
abbrev known : System
known = record {
  readlink = some (ascii "/srv/tux");
  popen = λ command. some (ascii "main\nmain.cpp:3\n");
}

-- addr2line cannot be run.
abbrev missing : System
missing = record { readlink = some (ascii "/srv/tux"); popen = λ command. none }

abbrev main_frame : Frame
main_frame = record { proc_name = some (ascii "main"); ip = 4198 }

abbrev nameless : Frame
nameless = record { proc_name = none; ip = 255 }

print_back_trace_lines_example :
    print_back_trace debug known
        (record { module_name = λ i. 0; printed = [] })
        (main_frame ∷ nameless ∷ [])
      >>= (λ r. returns r.printed)
    ≡ (if ltb (length (ascii "/srv/tux")) k_module_name_len
        then returns (
            (begin_lines ++ frame_lines known (ascii "/srv/tux") 0 (main_frame ∷ nameless ∷ []))
            ++ end_line)
        else aborts)
print_back_trace_lines_example =
    print_back_trace_lines debug known (ascii "/srv/tux") (λ i. 0) main_frame (nameless ∷ []) refl
      (ground arith) (omega arith) refl

missing_lines :
    frame_lines missing (ascii "/srv/tux") 0 (main_frame ∷ nameless ∷ [])
    ≡ ascii "[0]: main (IP: 0x1066)\n[1]:  (IP: 0xff)\n"
unfolding hex decimal
missing_lines = refl

known_lines :
    frame_lines known (ascii "/srv/tux") 10 (main_frame ∷ []) ≡ ascii "[10]: main\nmain.cpp:3\n"
unfolding read_lines decimal
known_lines = refl

-- A path of 512 bytes
too_long :
    module_name_of release
      (record { readlink = some (replicate 512 97); popen = λ command. none })
      (λ i. 0)
    ≡ aborts
unfolding module_name_of
too_long = refl
