-- ===== src/Config/Process/Cycles.antt =====
-- create_writer of config_file_configurator.cpp, for writers that hold writers in a cycle.
use chucho.Base.{ℕ, zero, suc, ◌≡◌, refl, ap, ◌∙◌, [], ◌∷◌, ◌++◌, Text, text_eq}
use chucho.Config.Properties.{Properties}
use chucho.Config.Process.{
  Configurable, Calls, no_calls, child_call, Factories, Attempt, threw, unfinished, undefined, gave,
  ◌>>=◌, get_factory, finish_configurable, writer_key, handle_writer_entry, handle_writer_entries,
  writer_entries, create_writer,
}

handle_writer_entries-append :
    (f : Factories) (create : Text → Attempt Configurable) (props : Properties) (cls : Text)
    (before after : Properties) (calls : Calls)
    → handle_writer_entries f create props cls (before ++ after) calls ≡ (
        handle_writer_entries f create props cls before calls
        >>= handle_writer_entries f create props cls after)
unfolding handle_writer_entries
handle_writer_entries-append f create props cls [] after calls = refl
handle_writer_entries-append f create props cls ((k, v) ∷ before) after calls =
    bind_then (handle_writer_entry f create props cls k v calls) _ _ _
      (handle_writer_entries-append f create props cls before after)
  where
    bind_then :
        {A B C : Type 0}
        → (x : Attempt A) (g : A → Attempt C) (h : A → Attempt B) (e : B → Attempt C)
        → ((a : A) → g a ≡ (h a >>= e))
        → (x >>= g) ≡ ((x >>= h) >>= e)
    bind_then threw g h e p = refl
    bind_then unfinished g h e p = refl
    bind_then undefined g h e p = refl
    bind_then (gave a) g h e p = p a

-- A writer whose properties come to the writer of another name before anything throws
abbrev pub LeadsTo : Factories → Properties → Text → Text → Type 0
LeadsTo f props name next =
    (cls : Text) × (before : Properties) × (after : Properties) × (calls : Calls) × (get_factory f
        writer_key name props
      ≡ gave cls)
    × (writer_entries name props ≡ before ++ ((writer_key, next) ∷ after))
    × ((create : Text → Attempt Configurable)
        → handle_writer_entries f create props cls before no_calls ≡ gave calls)

writer_entry_stuck :
    (f : Factories) (create : Text → Attempt Configurable) (props : Properties) (cls v : Text)
    (calls : Calls)
    → create v ≡ unfinished
    → handle_writer_entry f create props cls writer_key v calls ≡ unfinished
unfolding handle_writer_entry text_eq
writer_entry_stuck f create props cls v calls h =
    ap (λ x. x >>= λ made. gave (child_call calls made)) h

-- Where each of the writers leads to the next one without end, as on a cycle, create_writer never ends for
-- any of them: with any fuel at all it is out of fuel, and neither throws nor gives a writer.
pub create_writer_cycle :
    (f : Factories) (props : Properties) (walk : ℕ → Text)
    → ((i : ℕ) → LeadsTo f props (walk i) (walk (suc i)))
    → (fuel i : ℕ) → create_writer f props fuel (walk i) ≡ unfinished
unfolding create_writer
create_writer_cycle f props walk h zero i = refl
create_writer_cycle f props walk h (suc n) i =
    let (cls, before, after, calls, made, es, first) = h i in
    let create : Text → Attempt Configurable = create_writer f props n in
    let stuck : handle_writer_entries f create props cls (writer_entries (walk i) props) no_calls
        ≡ unfinished =
      ap (λ es. handle_writer_entries f create props cls es no_calls) es
      ∙ (handle_writer_entries-append f create props cls before ((writer_key, walk (suc i)) ∷ after)
            no_calls
          ∙ (ap
                (λ x.
                  x
                  >>= handle_writer_entries f create props cls ((writer_key, walk (suc i)) ∷ after))
                (first create)
              ∙ ap (λ x. x >>= handle_writer_entries f create props cls after)
                  (writer_entry_stuck f create props cls (walk (suc i)) calls
                    (create_writer_cycle f props walk h n (suc i))))) in
    ap
      (λ x. x >>= λ cls.
        handle_writer_entries f create props cls (writer_entries (walk i) props) no_calls
        >>= finish_configurable f cls)
      made
    ∙ ap (λ x. x >>= finish_configurable f cls) stuck
