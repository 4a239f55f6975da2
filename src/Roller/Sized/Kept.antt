-- ===== src/Roller/Sized/Kept.antt =====
-- Which bytes a rolling_file_writer keeps, and in which files.
use chucho.Base.{
  ℕ, zero, suc, ◌+◌, ◌≤◌, ◌<◌, ◌≡◌, refl, sym, ap, subst, ◌∙◌, Bool, true, false, List, [], ◌∷◌,
  ◌++◌, append-nil, append_assoc, Option, none, some, Text, leb, ltb, arith, length, get_elem?,
  length-append, Bool-cases, inl, inr,
}
use chucho.FdWriter.{FdWriter, buf_size, close}
use chucho.FdWriter.Delivery.{bytes_to}
use chucho.Roller.{active, numbered, Files, put, Roller, is_compressed, get_name}
use chucho.Roller.Shift.{carried, put_same, put_other}
use chucho.Roller.Rolled.{Rolled, roll-Rolled, differs_active}
use chucho.Roller.Sized.{
  accepts_all, RollingWriter, content_of, settle, size_is_triggered, open_active, roll_writer,
  write_sized, write_sized_each, new_rolling_writer,
}
use chucho.Roller.Sized.Written.{Open, close_lem, write_active-Wrote}

-- The numbers' files, from the newest
Numbers : Roller → List Text → Files → Type 0
Numbers r hist files = (k : ℕ) → k ≤ r.last → files (numbered k false) ≡ get_elem? hist k

no_compressor : (r : Roller) (k : ℕ) → r.compressor ≡ none → is_compressed r k ≡ false
unfolding is_compressed
no_compressor r k h = rw h refl

plain_name : (r : Roller) (k : ℕ) → r.compressor ≡ none → get_name r k ≡ numbered k false
unfolding get_name
plain_name r k h = ap (numbered k) (no_compressor r k h)

carried_plain : (packed : Text → Text) (c : Option Text) → carried packed false false c ≡ c
carried_plain packed none = refl
carried_plain packed (some c) = refl

Rolled-Numbers :
    (packed : Text → Text) (r : Roller) (files rolled : Files) (hist : List Text) (a : Text)
    → r.compressor ≡ none
    → files active ≡ some a
    → Numbers r hist files
    → Rolled packed r files rolled
    → Numbers r (a ∷ hist) rolled
unfolding Numbers get_name
Rolled-Numbers packed r files rolled hist a plain here before after zero h =
    ap rolled (sym (plain_name r 0 plain))
    ∙ (after.first
        ∙ (ap (λ b. carried packed false b (files active)) (no_compressor r 0 plain)
            ∙ (carried_plain packed (files active) ∙ here)))
Rolled-Numbers packed r files rolled hist a plain here before after (suc k) h =
    ap rolled (sym (plain_name r (suc k) plain))
    ∙ (after.next k (omega arith)
        ∙ (ap (λ b. carried packed b (is_compressed r (suc k)) (files (get_name r k)))
              (no_compressor r k plain)
            ∙ (ap (λ b. carried packed false b (files (get_name r k)))
                  (no_compressor r (suc k) plain)
                ∙ (carried_plain packed (files (get_name r k))
                    ∙ (ap files (plain_name r k plain) ∙ before k (omega arith))))))

-- What a roll leaves of an open writer: an empty active file, with its content under the first number
record Fresh (d : ℕ) (r : Roller) (hist : List Text) (v : RollingWriter) : Type 0 where
  opened : Open d [] v
  empty : v.base.buf ≡ []
  numbers : Numbers r hist v.files

open_active-Fresh :
    (d : ℕ) (r : Roller) (hist : List Text) (files : Files) (base : FdWriter)
    → 0 < d
    → base.buf ≡ []
    → base.sent ≡ []
    → files active ≡ none
    → Numbers r hist files
    → (v : RollingWriter) × (open_active d files base ≡ some v) × Fresh d r hist v
unfolding open_active Numbers
open_active-Fresh d r hist files base some_d no_buf no_sent gone numbers = (
  record {
    base = record base { fd = some d };
    files = put active (some (content_of (files active))) files;
  },
  (let e : ltb d 1 ≡ false = ground arith in rw (open_active, e) refl),
  record {
    opened = record {
      is_open = refl;
      few = rw no_buf (omega arith);
      settled = no_sent;
      holds =
          put_same active (some (content_of (files active))) files
          ∙ ap (λ c. some (content_of c)) gone;
    };
    empty = no_buf;
    numbers =
        λ k h. put_other active (numbered k false) _ files (differs_active k false) ∙ numbers k h;
  },
)

roll_writer-Fresh :
    (packed : Text → Text) (r : Roller) (d : ℕ) (a : Text) (hist : List Text) (w : RollingWriter)
    → r.compressor ≡ none
    → 0 < d
    → Open d a w
    → Numbers r hist w.files
    → (v : RollingWriter) × (roll_writer packed r d w ≡ some v)
      × Fresh d r ((a ++ w.base.buf) ∷ hist) v
unfolding roll_writer Numbers
roll_writer-Fresh packed r d a hist w plain some_d o numbers =
    let (sent, no_buf) = close_lem d w.base o.is_open o.settled in
    let closed : RollingWriter = settle d (record w { base = close accepts_all w.base }) in
    let here : closed.files active ≡ some (a ++ w.base.buf) =
      put_same active _ w.files
      ∙ (ap (λ c. some (content_of c ++ bytes_to d (close accepts_all w.base).sent)) o.holds
          ∙ ap (λ t. some (a ++ t)) sent) in
    let before : Numbers r hist closed.files =
      λ k h. put_other active (numbered k false) _ w.files (differs_active k false) ∙ numbers k h in
    let (rolled, e, done) = roll-Rolled packed r closed.files (a ++ w.base.buf) here in
    let (v, f, fresh) =
      open_active-Fresh d r ((a ++ w.base.buf) ∷ hist) rolled closed.base some_d no_buf refl
        done.gone
        (Rolled-Numbers packed r closed.files rolled hist (a ++ w.base.buf) plain here before
          done) in
    (v, rw (roll_writer, e) f, fresh)

-- The contents of the numbers, the oldest first, and the bytes of some texts
abbrev pub oldest_first : List Text → Text
oldest_first [] = []
oldest_first (c ∷ hist) = oldest_first hist ++ c

abbrev pub bytes_of : List Text → Text
bytes_of [] = []
bytes_of (msg ∷ msgs) = msg ++ bytes_of msgs

abbrev pub AllWithin : ℕ → List Text → Type 0
AllWithin n [] = Unit
AllWithin n (c ∷ cs) = (length c ≤ n) × AllWithin n cs

-- What a writer keeps of all the bytes that were written
record Keeps (r : Roller) (d bound : ℕ) (all : Text) (w : RollingWriter) : Type 0 where
  content : Text
  hist : List Text
  opened : Open d content w
  numbers : Numbers r hist w.files
  order : oldest_first hist ++ (content ++ w.base.buf) ≡ all
  small : length content + length w.base.buf ≤ bound
  within : AllWithin bound hist

module _ (packed : Text → Text) (r : Roller) (max_size d most : ℕ) (plain : r.compressor ≡ none)
    (some_d : 0 < d) where
  write_sized-Keeps :
      (all msg : Text) (w : RollingWriter)
      → length msg ≤ most
      → Keeps r d (max_size + buf_size + most) all w
      → (v : RollingWriter) × (write_sized packed r max_size d msg w ≡ some v)
        × Keeps r d (max_size + buf_size + most) (all ++ msg) v
  unfolding write_sized size_is_triggered Numbers
  write_sized-Keeps all msg w few k = elim (Bool-cases (leb max_size (length k.content))) [
    | inl full ↦
        let (u, e, fresh) =
          roll_writer-Fresh packed r d k.content k.hist w plain some_d k.opened k.numbers in
        let (v, f, wrote) = write_active-Wrote d [] u msg fresh.opened in
        let only : wrote.content ++ v.base.buf ≡ msg = wrote.all ∙ ap (λ t. t ++ msg) fresh.empty in
        let triggered : size_is_triggered max_size w.files ≡ true =
          rw (size_is_triggered, k.opened.holds) full in
        (
          v,
          rw (write_sized, triggered, e) f,
          record {
            content = wrote.content;
            hist = (k.content ++ w.base.buf) ∷ k.hist;
            opened = wrote.opened;
            numbers = λ j h. wrote.others j false ∙ fresh.numbers j h;
            order =
                ap (λ t. (oldest_first k.hist ++ (k.content ++ w.base.buf)) ++ t) only
                ∙ ap (λ t. t ++ msg) k.order;
            small = omega (arith, few, length-append wrote.content v.base.buf, ap length only);
            within = (omega (arith, k.small, length-append k.content w.base.buf), k.within);
          },
        )
    | inr room ↦
        let (v, f, wrote) = write_active-Wrote d k.content w msg k.opened in
        let triggered : size_is_triggered max_size w.files ≡ false =
          rw (size_is_triggered, k.opened.holds) room in
        let below : length k.content < max_size = ground arith in
        (
          v,
          rw (write_sized, triggered) f,
          record {
            content = wrote.content;
            hist = k.hist;
            opened = wrote.opened;
            numbers = λ j h. wrote.others j false ∙ k.numbers j h;
            order =
                ap (◌++◌ (oldest_first k.hist)) wrote.all
                ∙ (sym (append_assoc (oldest_first k.hist) (k.content ++ w.base.buf) msg)
                    ∙ ap (λ t. t ++ msg) k.order);
            small = omega (
              arith,
              few,
              below,
              k.opened.few,
              length-append wrote.content v.base.buf,
              ap length wrote.all,
              length-append (k.content ++ w.base.buf) msg,
              length-append k.content w.base.buf,
            );
            within = k.within;
          },
        )
  ]

  write_sized_each-Keeps :
      (msgs : List Text) (all : Text) (w : RollingWriter)
      → AllWithin most msgs
      → Keeps r d (max_size + buf_size + most) all w
      → (v : RollingWriter) × (write_sized_each packed r max_size d msgs w ≡ some v)
        × Keeps r d (max_size + buf_size + most) (all ++ bytes_of msgs) v
  unfolding write_sized_each
  write_sized_each-Keeps [] all w few k =
      (w, refl, subst (λ t. Keeps r d (max_size + buf_size + most) t w) (sym (append-nil all)) k)
  write_sized_each-Keeps (msg ∷ msgs) all w few k =
      let (u, e, ku) = write_sized-Keeps all msg w few.0 k in
      let (v, f, kv) = write_sized_each-Keeps msgs (all ++ msg) u few.1 ku in
      (
        v,
        rw (write_sized_each, e) f,
        subst (λ t. Keeps r d (max_size + buf_size + most) t v)
            (append_assoc all msg (bytes_of msgs)) kv,
      )

-- A rolling_file_writer with a size_file_roll_trigger and a numbered_file_roller, on a new file: whatever
-- is written, no exception is thrown, and the contents of all the files that there have been, the oldest
-- first, and then the active file and the buffer are the bytes of the texts, each once and in order. The
-- numbers hold the newest of these contents, as many as there are numbers. No file is longer than
-- max_size, the buffer's size and the longest text together. There is no compressor, the system accepts
-- every byte, and the descriptor is not 0.
pub write_sized_each_contents :
    (packed : Text → Text) (r : Roller) (max_size d most : ℕ) (flush_each : Bool) (msgs : List Text)
    → r.compressor ≡ none
    → 0 < d
    → AllWithin most msgs
    → (w : RollingWriter) × (content : Text) × (hist : List Text) × (write_sized_each packed r
          max_size d msgs
          (new_rolling_writer d flush_each)
        ≡ some w)
      × (w.files active ≡ some content)
      × ((k : ℕ) → k ≤ r.last → w.files (numbered k false) ≡ get_elem? hist k)
      × (oldest_first hist ++ (content ++ w.base.buf) ≡ bytes_of msgs)
      × AllWithin (max_size + buf_size + most) (content ∷ hist)
unfolding new_rolling_writer Numbers
write_sized_each_contents packed r max_size d most flush_each msgs plain some_d few =
    let nothing : Files = λ n. none in
    let start : Keeps r d (max_size + buf_size + most) [] (new_rolling_writer d flush_each) =
      record {
        content = [];
        hist = [];
        opened = record {
          is_open = refl;
          few = omega arith;
          settled = refl;
          holds = put_same active (some []) nothing;
        };
        numbers =
            λ k h. put_other active (numbered k false) (some []) nothing (differs_active k false);
        order = refl;
        small = omega arith;
        within = tt;
      } in
    let (w, e, k) =
      write_sized_each-Keeps packed r max_size d most plain some_d msgs []
        (new_rolling_writer d flush_each) few start in
    (
      w,
      k.content,
      k.hist,
      e,
      k.opened.holds,
      k.numbers,
      k.order,
      (omega (arith, k.small), k.within),
    )
