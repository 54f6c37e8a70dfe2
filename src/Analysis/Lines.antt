-- ===== src/Analysis/Lines.antt =====
-- analysis/heatloss-analysis.go: the analysis of well-formed lines does not panic.
use smarthouse.Prelude.{
  subst, sym, ◌∙◌, zero, suc, ℕ, ◌<◌, ℤ, pos, negsuc, int_eq, int_eq_iff, leb_ℤ, add_int, ◌≡◌, ◌≢◌,
  refl, arith, inl, inr, Bool-cases, some, List, [], ◌∷◌, All, length, get_elem?, Bytes, codes,
  Bool, bytes_eq, bytes_eq_iff, returned, Returns, >>=-Returns, ◌>>=◌,
}
use smarthouse.GoStrings.{split}
use smarthouse.GoConv.{atoi}
use smarthouse.Analysis.Windows.{Float32, Float32Ops, WindowState, at}
use smarthouse.Analysis.Scans.{
  ato_byte, parse_temperature, window_start, read_outside, take_node, read_node, update_diff, go_on,
  open_window, read_line, scan_parts, scan_line, scan_lines,
}
use smarthouse.Analysis.Nights.{
  IsNamed, All-append, IsNight, IsResult, at-Returns, end_window-IsResult,
}

-- The field is there, and is an int.
abbrev NumberAt : List Bytes → ℕ → Type 0
NumberAt parts i = (s : Bytes) × (z : ℤ) × (get_elem? parts i ≡ some s) × (atoi s ≡ some z)

-- The time and the four bytes of a reading.
abbrev pub IsReading : List Bytes → Type 0
IsReading parts =
    NumberAt parts 0 × NumberAt parts 9 × NumberAt parts 10 × NumberAt parts 11 × NumberAt parts 12

-- A line has a second field, and where that is OK it is a reading.
abbrev pub IsLine : Bytes → Type 0
IsLine line =
    (tag : Bytes) × (get_elem? (split b' ' line) 1 ≡ some tag)
    × (tag ≡ codes "OK" → IsReading (split b' ' line))

pub at-found :
    {A : Type 0} (xs : List A) (i : ℕ) (x : A) → get_elem? xs i ≡ some x → at xs i ≡ returned x
at-found [] i x h = ground arith
at-found (y ∷ xs) zero x h = ground arith
at-found (y ∷ xs) (suc i) x h = at-found xs i x h

length-found : {A : Type 0} (xs : List A) (i : ℕ) (x : A) → get_elem? xs i ≡ some x → i < length xs
length-found [] i x h = ground arith
length-found (y ∷ xs) zero x h = omega arith
length-found (y ∷ xs) (suc i) x h = omega (arith, length-found xs i x h)

ato_byte-Returns :
    (parts : List Bytes) (i : ℕ)
    → NumberAt parts i
    → Returns (λ (b : ℕ). Unit) (at parts i >>= ato_byte)
unfolding ato_byte
ato_byte-Returns parts i (s, z, there, number) = rw (at-found parts i s there, ato_byte, number) tt

parse_temperature-Returns :
    (parts : List Bytes)
    → IsReading parts
    → Returns (λ (t : Float32). Unit) (parse_temperature parts)
unfolding parse_temperature
parse_temperature-Returns parts (_, n0, n1, n2, n3) =
    >>=-Returns (λ (b : ℕ). Unit) _ (at parts 9 >>= ato_byte) _ (ato_byte-Returns parts 9 n0)
      (λ b0 _.
        >>=-Returns (λ (b : ℕ). Unit) _ (at parts 10 >>= ato_byte) _ (ato_byte-Returns parts 10 n1)
          (λ b1 _.
            >>=-Returns (λ (b : ℕ). Unit) _ (at parts 11 >>= ato_byte) _
              (ato_byte-Returns parts 11 n2)
              (λ b2 _.
                >>=-Returns (λ (b : ℕ). Unit) _ (at parts 12 >>= ato_byte) _
                  (ato_byte-Returns parts 12 n3) (λ b3 _. tt))))

-- What a reading leaves as it is.
abbrev IsSameNight : WindowState → WindowState → Type 0
IsSameNight st st' =
    (st'.win_secs ≡ st.win_secs)
    × (st'.transfer_rates ≡ st.transfer_rates)
    × (st'.transfer_start_ts ≡ st.transfer_start_ts)

read_outside-IsSameNight :
    (f : Float32Ops) (st : WindowState) (t : Float32)
    → IsSameNight st (go_on f (read_outside f st t))
unfolding read_outside update_diff
read_outside-IsSameNight f st t = ground arith

read_node-IsSameNight :
    (f : Float32Ops) (st : WindowState) (ts : ℤ) (t : Float32)
    → IsSameNight st (go_on f (read_node f st ts t))
unfolding read_node take_node update_diff
read_node-IsSameNight f st ts t = ground arith

-- A state of windows of this length, with the rates of a night that has a start.
abbrev IsOf : ℤ → WindowState → Type 0
IsOf win_secs st = (st.win_secs ≡ win_secs) × IsNight st

IsSameNight-IsOf :
    (win_secs : ℤ) (st st' : WindowState)
    → IsOf win_secs st
    → IsSameNight st st'
    → IsOf win_secs st'
IsSameNight-IsOf win_secs st st' (ew, v) (w, r, t) = (w ∙ ew, rw (r, t) v)

module _ (f : Float32Ops) (hour_of_day : ℤ → ℕ) (verbose : Bool) (node outside : Bytes) where
  read_line-IsOf :
      (win_secs : ℤ) (parts : List Bytes) (st : WindowState) (ts : ℤ)
      → IsReading parts
      → IsOf win_secs st
      → Returns (IsOf win_secs) (read_line f hour_of_day verbose node outside parts st ts)
  unfolding read_line
  read_line-IsOf win_secs parts st ts r v =
      let (_, _, _, _, (s, _, there, _)) = r in
      >>=-Returns (λ (id : Bytes). Unit) (IsOf win_secs) (at parts 2) _
        (at-Returns parts 2 (omega (arith, length-found parts 12 s there)))
        (λ id _. elim (Bool-cases (bytes_eq id outside)) [
          | inl out ↦ rw out (
              >>=-Returns (λ (t : Float32). Unit) (IsOf win_secs) (parse_temperature parts) _
                (parse_temperature-Returns parts r)
                (λ t _.
                  IsSameNight-IsOf win_secs st (go_on f (read_outside f st t)) v
                    (read_outside-IsSameNight f st t)))
          | inr not_out ↦ elim (Bool-cases (bytes_eq id node)) [
            | inl inside ↦
                rw (not_out, inside)
                  (>>=-Returns (λ (t : Float32). Unit) (IsOf win_secs) (parse_temperature parts) _
                    (parse_temperature-Returns parts r)
                    (λ t _.
                      IsSameNight-IsOf win_secs st (go_on f (read_node f st ts t)) v
                        (read_node-IsSameNight f st ts t)))
            | inr neither ↦ rw (not_out, neither) v
          ]
        ])

  open_window-IsResult :
      (st : WindowState) (ts : ℤ)
      → st.win_secs ≢ pos 0
      → IsNight st
      → Returns (IsResult st.win_secs) (open_window f hour_of_day verbose node outside st ts)
  unfolding open_window window_start
  open_window-IsResult st ts some_secs v = elim (Bool-cases (int_eq st.start_ts (negsuc 0))) [
    | inl first ↦ elim (Bool-cases (int_eq st.win_secs (pos 0))) [
      | inl zero_secs ↦ absurd (some_secs ((int_eq_iff st.win_secs (pos 0)).0 zero_secs))
      | inr fits ↦ rw (open_window, first, fits) (refl, v, (tt, tt))
    ]
    | inr later ↦ elim (Bool-cases (leb_ℤ (add_int st.start_ts st.win_secs) ts)) [
      | inl over ↦
          rw (open_window, later, over)
            (end_window-IsResult f hour_of_day verbose node st (negsuc 0) v)
      | inr inside ↦ rw (open_window, later, inside) (refl, v, tt)
    ]
  ]

  scan_parts-IsResult :
      (parts : List Bytes) (st : WindowState)
      → st.win_secs ≢ pos 0
      → IsReading parts
      → IsNight st
      → Returns (IsResult st.win_secs) (scan_parts f hour_of_day verbose node outside parts st)
  unfolding scan_parts
  scan_parts-IsResult parts st some_secs r v =
      let ((s, z, there, number), _, _, _, _) = r in
      rw (at-found parts 0 s there, number)
        (>>=-Returns (IsResult st.win_secs) (IsResult st.win_secs)
          (open_window f hour_of_day verbose node outside st z) _
          (open_window-IsResult st z some_secs v)
          (λ (st1, printed) (ew, n, p).
            >>=-Returns (IsOf st.win_secs) (IsResult st.win_secs)
              (read_line f hour_of_day verbose node outside parts st1 z) _
              (read_line-IsOf st.win_secs parts st1 z r (ew, n)) (λ st2 (ew2, n2). (ew2, n2, p))))

  pub scan_line-IsResult :
      (st : WindowState) (line : Bytes)
      → st.win_secs ≢ pos 0
      → IsLine line
      → IsNight st
      → Returns (IsResult st.win_secs) (scan_line f hour_of_day verbose node outside st line)
  unfolding scan_line
  scan_line-IsResult st line some_secs (tag, there, reading) v =
      elim (Bool-cases (bytes_eq tag (codes "OK"))) [
        | inl ok ↦
            rw (at-found (split b' ' line) 1 tag there, ok)
              (scan_parts-IsResult (split b' ' line) st some_secs
                (reading ((bytes_eq_iff tag (codes "OK")).0 ok)) v)
        | inr skip ↦ rw (at-found (split b' ' line) 1 tag there, skip) (refl, v, tt)
      ]

  pub scan_lines-IsResult :
      (lines : List Bytes) (st : WindowState) (win_secs : ℤ)
      → win_secs ≢ pos 0
      → All IsLine lines
      → IsOf win_secs st
      → Returns (IsResult win_secs) (scan_lines f hour_of_day verbose node outside lines st)
  unfolding scan_lines
  scan_lines-IsResult [] st win_secs some_secs all (ew, v) = (ew, v, tt)
  scan_lines-IsResult (line ∷ lines) st win_secs some_secs (one, all) (ew, v) =
      >>=-Returns (IsResult win_secs) (IsResult win_secs)
        (scan_line f hour_of_day verbose node outside st line) _
        (subst (λ w. Returns (IsResult w) (scan_line f hour_of_day verbose node outside st line)) ew
          (scan_line-IsResult st line (λ e. some_secs (sym ew ∙ e)) one v))
        (λ (st1, printed) (ew1, n1, p1).
          >>=-Returns (IsResult win_secs) (IsResult win_secs)
            (scan_lines f hour_of_day verbose node outside lines st1) _
            (scan_lines-IsResult lines st1 win_secs some_secs all (ew1, n1))
            (λ (st2, more) (ew2, n2, p2). (ew2, n2, All-append IsNamed printed more p1 p2)))
