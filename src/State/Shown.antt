-- ===== src/State/Shown.antt =====
-- clonebox-core/src/state.rs: Display for State, the text for the terminal. How a number is printed is
-- an argument.
use clonebox.Prelude.{Text, codes, Option, none, some, List, [], ◌∷◌, ◌++◌, ℤ}
use clonebox.State.{State, display_state}

abbrev new_line : Text
new_line = b'\n' ∷ []

display_pid : (ℤ → Text) → Option ℤ → Text
display_pid decimal (some pid) = codes "pid: " ++ (decimal pid ++ (codes "," ++ new_line))
display_pid decimal none = codes "pid: null," ++ new_line

-- The loop over the entries of the map.
display_pairs : List (Text × Text) → Text
display_pairs [] = []
display_pairs ((k, v) ∷ rest) =
    codes "  " ++ (k ++ (codes ": " ++ (v ++ (new_line ++ display_pairs rest))))

display_annotations : Option (List (Text × Text)) → Text
unfolding display_pairs
display_annotations (some annotations) =
    codes "annotations:" ++ (new_line ++ display_pairs annotations)
display_annotations none = codes "annotations: null" ++ new_line

unfoldable pub display_record : (ℤ → Text) → State → Text
unfolding display_pid display_annotations display_state
display_record decimal s =
    codes "oci-version: "
    ++ (s.oci_version
        ++ (codes ","
            ++ (new_line
                ++ (codes "id: "
                    ++ (s.id
                        ++ (codes ","
                            ++ (new_line
                                ++ (codes "status: "
                                    ++ (display_state s.status
                                        ++ (codes ","
                                            ++ (new_line
                                                ++ (display_pid decimal s.pid
                                                    ++ (codes "bundle: "
                                                        ++ (s.bundle
                                                            ++ (codes ","
                                                            ++ (new_line
                                                            ++ display_annotations
                                                            s.annotations))))))))))))))))
