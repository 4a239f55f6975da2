-- ===== src/FdWriter/Delivery.antt =====
-- What reaches the descriptor of a file_descriptor_writer, and what waits in its buffer.
use chucho.Base.{
  ℕ, zero, suc, ◌+◌, ◌-◌, ◌≤◌, ◌<◌, ◌≡◌, refl, sym, ap, subst, ◌∙◌, ◌&&◌, Bool-cases, inl, inr,
  List, [], ◌∷◌, ◌++◌, append-nil, append_assoc, Option, Option-cases, ◌⊎◌, none, some, Text,
  if◌then◌else◌, ltb, ◌==◌, arith, length, take, drop, length-append, length-take, length-drop,
  take-append-drop,
}
use chucho.FdWriter.{
  Accepts, FdWriter, Outcome, returned, threw, buf_size, flush, to_copy, copy_some, write_loop,
  write_text,
}

-- The bytes that a descriptor has accepted
abbrev pub bytes_to : ℕ → List (ℕ × Text) → Text
bytes_to d [] = []
bytes_to d ((e, t) ∷ sent) = if e == d then t ++ bytes_to d sent else bytes_to d sent

-- The write of the system accepts a byte at least, and no more than it is given, or fails.
pub record Sound (accepts : Accepts) : Type 0 where
  pub bounds : (k n rc : ℕ) → accepts k n ≡ some rc → 0 < n → (0 < rc) × (rc ≤ n)

pub bytes_to-append :
    (d : ℕ) (sent : List (ℕ × Text)) (t : Text)
    → bytes_to d (sent ++ (d, t) ∷ []) ≡ bytes_to d sent ++ t
bytes_to-append d [] t = elim (Bool-cases (d == d)) [
  | inl h ↦ rw h (append-nil t)
  | inr h ↦ absurd (ground arith)
]
bytes_to-append d ((e, u) ∷ sent) t = elim (Bool-cases (e == d)) [
  | inl h ↦ rw h (ap (◌++◌ u) (bytes_to-append d sent t) ∙ sym (append_assoc u (bytes_to d sent) t))
  | inr h ↦ rw h (bytes_to-append d sent t)
]

-- What an operation that is given a text leaves: it ends with the text behind what was there before,
-- or throws with a front of the text behind it, which is all that there was room for: the whole text,
-- or else the buffer is full.
pub data Delivered (d bound : ℕ) (w : FdWriter) (msg : Text) : Outcome → Type 0 where
  ended :
      (v : FdWriter)
      → v.fd ≡ some d
      → v.flush_each ≡ w.flush_each
      → length v.buf < bound
      → bytes_to d v.sent ++ v.buf ≡ (bytes_to d w.sent ++ w.buf) ++ msg
      → Delivered d bound w msg (returned v)
  failed :
      (v : FdWriter) (front left : Text)
      → v.fd ≡ some d
      → v.flush_each ≡ w.flush_each
      → length v.buf ≤ buf_size
      → ((left ≡ []) ⊎ (length v.buf ≡ buf_size))
      → msg ≡ front ++ left
      → bytes_to d v.sent ++ v.buf ≡ (bytes_to d w.sent ++ w.buf) ++ front
      → Delivered d bound w msg (threw v)

-- What is delivered after what was delivered
Delivered-then :
    (d bound : ℕ) (w v : FdWriter) (front left : Text) (o : Outcome)
    → v.flush_each ≡ w.flush_each
    → bytes_to d v.sent ++ v.buf ≡ (bytes_to d w.sent ++ w.buf) ++ front
    → Delivered d bound v left o
    → Delivered d bound w (front ++ left) o
Delivered-then d bound w v front left _ f e (ended u is_open g few all) =
    ended u is_open (g ∙ f) few
      (all ∙ (ap (λ s. s ++ left) e ∙ append_assoc (bytes_to d w.sent ++ w.buf) front left))
Delivered-then d bound w v front left _ f e (failed u a b is_open g few room same all) =
    failed u (front ++ a) b is_open (g ∙ f) few room
      (ap (◌++◌ front) same ∙ sym (append_assoc front a b))
      (all ∙ (ap (λ s. s ++ a) e ∙ append_assoc (bytes_to d w.sent ++ w.buf) front a))

-- A write that fails leaves the buffer as it is, which was full if it comes from the loop.
flush_threw : (accepts : Accepts) (w v : FdWriter) → flush accepts w ≡ threw v → v.buf ≡ w.buf
unfolding flush
flush_threw accepts w v h = elim (Option-cases w.fd) [
  | inl e ↦ ground arith
  | inr (d, e) ↦ elim (Option-cases (accepts w.calls (length w.buf))) [
    | inl f ↦ ground arith
    | inr (rc, f) ↦ ground arith
  ]
]

copy_some_threw :
    (accepts : Accepts) (rest : Text) (w v : FdWriter)
    → copy_some accepts rest w ≡ threw v
    → length v.buf ≡ buf_size
unfolding copy_some
copy_some_threw accepts rest w v h =
    let copied = record w { buf = w.buf ++ take (to_copy rest w) rest } in
    elim (Bool-cases (length copied.buf == buf_size)) [
      | inl full ↦
          let same : v.buf ≡ copied.buf =
            flush_threw accepts copied v (sym (rw (copy_some, full) refl) ∙ h) in
          ap length same ∙ ground arith
      | inr room ↦ absurd (ground arith)
    ]

module _ (accepts : Accepts) (sound : Sound accepts) (d bound : ℕ) where
  flush-Delivered :
      (w : FdWriter)
      → w.fd ≡ some d
      → 0 < length w.buf
      → length w.buf ≤ buf_size
      → buf_size ≤ bound
      → Delivered d bound w [] (flush accepts w)
  unfolding flush
  flush-Delivered w is_open some_bytes few wide = by_answer (accepts w.calls (length w.buf)) refl
    where
      by_answer :
          (r : Option ℕ)
          → accepts w.calls (length w.buf) ≡ r
          → Delivered d bound w [] (flush accepts w)
      by_answer none e =
          let done : flush accepts w ≡ threw (record w { calls = w.calls + 1 }) =
            simp (flush, is_open, e) in
          subst (Delivered d bound w []) (sym done) (
            failed (record w { calls = w.calls + 1 }) [] [] is_open refl few (inl refl) refl
              (sym (append-nil (bytes_to d w.sent ++ w.buf))))
      by_answer (some rc) e =
          let v = record w {
            buf = drop rc w.buf;
            calls = w.calls + 1;
            sent = w.sent ++ (d, take rc w.buf) ∷ [];
          } in
          let done : flush accepts w ≡ returned v = simp (flush, is_open, e) in
          let (low, high) = sound.bounds w.calls (length w.buf) rc e some_bytes in
          subst (Delivered d bound w []) (sym done) (
            ended v is_open refl (omega (arith, length-drop rc w.buf)) (
              rw
                (
                  bytes_to-append d w.sent (take rc w.buf),
                  append_assoc (bytes_to d w.sent) (take rc w.buf) (drop rc w.buf),
                  take-append-drop rc w.buf,
                )
                (sym (append-nil (bytes_to d w.sent ++ w.buf)))))

  copy_some-Delivered :
      (rest : Text) (w : FdWriter)
      → w.fd ≡ some d
      → length w.buf ≤ buf_size
      → buf_size ≤ bound
      → Delivered d bound w (take (to_copy rest w) rest) (copy_some accepts rest w)
  unfolding copy_some
  copy_some-Delivered rest w is_open few wide =
      let t = take (to_copy rest w) rest in
      let copied = record w { buf = w.buf ++ t } in
      let size : length copied.buf ≤ buf_size =
        omega (arith, length-append w.buf t, length-take (to_copy rest w) rest) in
      let same : bytes_to d copied.sent ++ copied.buf ≡ (bytes_to d w.sent ++ w.buf) ++ t =
        sym (append_assoc (bytes_to d w.sent) w.buf t) in
      elim (Bool-cases (length copied.buf == buf_size)) [
        | inl full ↦
            rw (copy_some, full)
              (subst (λ m. Delivered d bound w m (flush accepts copied)) (append-nil t)
                (Delivered-then d bound w copied t [] (flush accepts copied) refl same
                  (flush-Delivered copied is_open (ground arith) size wide)))
        | inr room ↦ rw (copy_some, room) (ended copied is_open refl (ground arith) same)
      ]

module _ (accepts : Accepts) (sound : Sound accepts) (d : ℕ) where
  write_loop-Delivered :
      (fuel : ℕ) (rest : Text) (w : FdWriter)
      → w.fd ≡ some d
      → length w.buf ≤ buf_size
      → length rest + (suc (length w.buf) - buf_size) ≤ fuel
      → Delivered d (suc buf_size) w rest (write_loop accepts fuel rest w)
  unfolding write_loop
  write_loop-Delivered fuel [] w is_open few enough =
      ended w is_open refl (omega arith) (sym (append-nil (bytes_to d w.sent ++ w.buf)))
  write_loop-Delivered zero (b ∷ bs) w is_open few enough = absurd (omega arith)
  write_loop-Delivered (suc fuel) (b ∷ bs) w is_open few enough =
      by_round (copy_some accepts (b ∷ bs) w) refl
        (copy_some-Delivered accepts sound d buf_size (b ∷ bs) w is_open few (omega arith))
        (λ v v_open less.
          write_loop-Delivered fuel (drop (to_copy (b ∷ bs) w) (b ∷ bs)) v v_open (omega arith)
            (omega (arith, length-drop (to_copy (b ∷ bs) w) (b ∷ bs))))
    where
      now : ℕ
      now = to_copy (b ∷ bs) w

      by_round :
          (o : Outcome)
          → copy_some accepts (b ∷ bs) w ≡ o
          → Delivered d buf_size w (take now (b ∷ bs)) o
          → ((v : FdWriter)
              → v.fd ≡ some d
              → length v.buf < buf_size
              → Delivered d
                  (suc buf_size)
                  v
                  (drop now (b ∷ bs))
                  (write_loop accepts fuel (drop now (b ∷ bs)) v))
          → Delivered d (suc buf_size) w (b ∷ bs) (write_loop accepts (suc fuel) (b ∷ bs) w)
      by_round _ e (ended v v_open f less all) again =
          let next : write_loop accepts (suc fuel) (b ∷ bs) w
              ≡ write_loop accepts fuel (drop now (b ∷ bs)) v =
            rw (write_loop, e) refl in
          subst (Delivered d (suc buf_size) w (b ∷ bs)) (sym next) (
            subst
              (λ m. Delivered d (suc buf_size) w m (write_loop accepts fuel (drop now (b ∷ bs)) v))
              (take-append-drop now (b ∷ bs))
              (Delivered-then d (suc buf_size) w v (take now (b ∷ bs)) (drop now (b ∷ bs)) _ f all
                (again v v_open less)))
      by_round _ e (failed v front left v_open f less room same all) again =
          let next : write_loop accepts (suc fuel) (b ∷ bs) w ≡ threw v = rw (write_loop, e) refl in
          subst (Delivered d (suc buf_size) w (b ∷ bs)) (sym next) (
            failed v front (left ++ drop now (b ∷ bs)) v_open f (omega arith)
              (inr (copy_some_threw accepts (b ∷ bs) w v e))
              (sym (take-append-drop now (b ∷ bs))
                ∙ (ap (λ m. m ++ drop now (b ∷ bs)) same
                    ∙ append_assoc front left (drop now (b ∷ bs))))
              all)

-- write_impl on an open descriptor ends, whatever the system accepts of each write: either it
-- returns, and the descriptor has accepted what was in the buffer and then the text, but for what is
-- in the buffer now, or the system's write has failed and the same holds of a front of the text: the
-- whole of it, or else as much as fills the buffer, and the rest of the text is lost. Nothing that was
-- in the buffer or has been copied to it is lost, doubled or out of order, and the buffer keeps its
-- bounds, so that a later write_impl goes on. The system accepts at least a byte of each write and no
-- more than it is given, or fails.
pub write_text-Delivered :
    (accepts : Accepts) (d : ℕ) (w : FdWriter) (msg : Text)
    → Sound accepts
    → w.fd ≡ some d
    → length w.buf ≤ buf_size
    → Delivered d (suc buf_size) w msg (write_text accepts msg w)
unfolding write_text
write_text-Delivered accepts d w msg sound is_open few =
    by_loop (write_loop accepts (suc (length msg)) msg w) refl
      (write_loop-Delivered accepts sound d (suc (length msg)) msg w is_open few (omega arith))
  where
    by_loop :
        (o : Outcome)
        → write_loop accepts (suc (length msg)) msg w ≡ o
        → Delivered d (suc buf_size) w msg o
        → Delivered d (suc buf_size) w msg (write_text accepts msg w)
    by_loop _ e (failed v front left v_open f less room same all) =
        rw (write_text, e) (failed v front left v_open f less room same all)
    by_loop _ e (ended v v_open f less all) =
        elim (Bool-cases (v.flush_each && ltb 0 (length v.buf))) [
          | inl h ↦
              rw (write_text, e, h)
                (subst (λ m. Delivered d (suc buf_size) w m (flush accepts v)) (append-nil msg)
                  (Delivered-then d (suc buf_size) w v msg [] (flush accepts v) f all (
                    flush-Delivered accepts sound d (suc buf_size) v v_open (ground arith)
                      (omega arith) (omega arith))))
          | inr h ↦ rw (write_text, e, h) (ended v v_open f less all)
        ]
