-- ===== src/Http/Reads.antt =====
-- What an answer leaves of the state that the handlers share.
use gopanel.Common.{◌≡◌, refl, Bool, true, false, Bytes, if◌then◌else◌}
use gopanel.Diagnostic.Record.{Input, Recorder}
use gopanel.Container.Status.{StatusCache}
use gopanel.Http.{Response, World, Rendering, map_page, record_diagnostic, write_component}

-- What holds of both branches holds of the choice.
pub if_intro {ℓ κ} :
    {A : Type ℓ} (P : A → Type κ) (b : Bool) {x y : A} → P x → P y → P (if b then x else y)
if_intro P true p q = p
if_intro P false p q = q

pub record Kept (w v : World) : Type 0 where
  pub same_db : v.db ≡ w.db
  pub same_limiter : v.limiter ≡ w.limiter

-- The answer's state.
abbrev pub Keeps : {Page : Type 0} → World → Response Page × World → Type 0
Keeps w answer = Kept w answer.1

pub Kept-refl : (w : World) → Kept w w
Kept-refl w = record { same_db = refl; same_limiter = refl }

pub Kept-recorded :
    {w v : World} {recorder : Recorder} → Kept w v → Kept w (record v { recorder = recorder })
Kept-recorded h = record { same_db = h.same_db; same_limiter = h.same_limiter }

pub Kept-cached :
    {w v : World} {cache : StatusCache} → Kept w v → Kept w (record v { cache = cache })
Kept-cached h = record { same_db = h.same_db; same_limiter = h.same_limiter }

pub map_page-Kept :
    {A B : Type 0} (f : A → B) (w : World) (answer : Response A × World)
    → Kept w answer.1
    → Kept w (map_page f answer).1
unfolding map_page
map_page-Kept f w (response, v) h = record { same_db = h.same_db; same_limiter = h.same_limiter }

pub write_component-Kept :
    {Page : Type 0} (sanitize_detail : Bytes → Bytes) (rendering : Rendering)
    (render_input write_input : Input) (answer : Response Page) (w v : World)
    → Kept w v
    → Kept w (write_component sanitize_detail rendering render_input write_input answer v).1
unfolding write_component record_diagnostic
write_component-Kept sanitize_detail rendering render_input write_input answer w v h =
    if_intro (Keeps w) rendering.render_fails (Kept-recorded h)
      (if_intro (Keeps w) rendering.write_fails (Kept-recorded h) h)
