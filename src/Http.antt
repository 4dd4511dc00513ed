-- ===== src/Http.antt =====
-- What the handlers read of a request of net/http, and what they answer. A page is a component of
-- the views with its arguments.
pub mod Reads
use gopanel.Common.{ℕ, Bool, List, [], Option, none, some, Bytes, codes, eqb, if◌then◌else◌}
use gopanel.Common.Assoc.{lookup}
use gopanel.Common.Int.{ℤ}
use gopanel.Database.{Db}
use gopanel.Diagnostic.Record.{Input, Recorder, record_input}
use gopanel.Container.Status.{StatusCache}
use gopanel.Auth.RateLimit.{LoginLimiter}
use gopanel.Auth.Store.{User}

-- The cookies by name; the form that ParseForm reads, `none` where it fails; whether the origin check
-- refuses; the header HX-Request; the path; and what the middleware has put into the context.
pub record Request : Type 0 where
  pub cookies : List (Bytes × Bytes)
  pub form : Option (List (Bytes × Bytes))
  pub cross_origin : Bool
  pub hx_request : Bytes
  pub path : Bytes
  pub user : Option User
  pub session : Option Bytes

abbrev pub or_empty : Option Bytes → Bytes
or_empty none = []
or_empty (some value) = value

abbrev pub form_field : Option (List (Bytes × Bytes)) → Bytes → Bytes
form_field none name = []
form_field (some form) name = or_empty (lookup name form)

-- r.PostForm.Get
abbrev pub form_value : Request → Bytes → Bytes
form_value r name = form_field r.form name

abbrev pub is_htmx_request : Request → Bool
is_htmx_request r = eqb r.hx_request (codes "true")

-- User{}
abbrev pub no_user : User
no_user = record { id = []; email = []; name = []; password_hash = []; role = [] }

abbrev pub or_no_user : Option User → User
or_no_user none = no_user
or_no_user (some user) = user

abbrev pub current_user : Request → User
current_user r = or_no_user r.user

abbrev pub current_user_id : Request → Bytes
current_user_id r = (current_user r).id

-- All cookies have the path "/", HttpOnly and SameSite=Lax. A cookie that is taken back has no time of
-- its expiry.
pub record Cookie : Type 0 where
  pub name : Bytes
  pub value : Bytes
  pub secure : Bool
  pub expires : Option ℕ
  pub max_age : ℤ

-- A page, the bare message with a reference that stands in for one, a short text, or nothing.
pub data Body (Page : Type 0) : Type 0 where
  page : Page → Body Page
  fallback : (reference : Bytes) → Body Page
  plain : Bytes → Body Page
  empty : Body Page

abbrev pub map_body : {A B : Type 0} → (A → B) → Body A → Body B
map_body f (page p) = page (f p)
map_body f (fallback reference) = fallback reference
map_body f (plain text) = plain text
map_body f empty = empty

pub record Response (Page : Type 0) : Type 0 where
  pub status : ℕ
  pub cookies : List Cookie
      -- Location, HX-Redirect or HX-Push-Url
  pub location : Option Bytes
  pub body : Body Page

-- What the handlers share.
pub record World : Type 0 where
  pub limiter : LoginLimiter
  pub db : Db
  pub recorder : Recorder
  pub cache : StatusCache

-- The new reference of a diagnostic record, and its time.
pub record Draw : Type 0 where
  pub reference : Bytes
  pub at : ℕ

-- Whether the component renders and the response is written, with the records of the failures.
pub record Rendering : Type 0 where
  pub render_fails : Bool
  pub write_fails : Bool
  pub render_draw : Draw
  pub write_draw : Draw

abbrev pub Handler : Type 0 → Type 0
Handler Page = Request → World → Response Page × World

abbrev pub ok_status : ℕ
ok_status = 200

abbrev pub created_status : ℕ
created_status = 201

abbrev pub no_content : ℕ
no_content = 204

abbrev pub see_other : ℕ
see_other = 303

abbrev pub unauthorized : ℕ
unauthorized = 401

abbrev pub forbidden : ℕ
forbidden = 403

abbrev pub not_found_status : ℕ
not_found_status = 404

abbrev pub unprocessable : ℕ
unprocessable = 422

abbrev pub too_many_requests : ℕ
too_many_requests = 429

abbrev pub internal_error : ℕ
internal_error = 500

abbrev pub service_unavailable : ℕ
service_unavailable = 503

module _ (sanitize_detail : Bytes → Bytes) where
  -- A call of `Record` on the shared log.
  unfoldable pub record_diagnostic : Draw → Input → World → World × Bytes
  record_diagnostic draw input w =
      let (recorder, new) = record_input sanitize_detail w.recorder draw.reference draw.at input in
      (record w { recorder = recorder }, new.id)

unfoldable pub map_page : {A B : Type 0} → (A → B) → Response A × World → Response B × World
map_page f (response, w) = (
  record {
    status = response.status;
    cookies = response.cookies;
    location = response.location;
    body = map_body f response.body;
  },
  w,
)

module _ {Page : Type 0} (sanitize_detail : Bytes → Bytes) (rendering : Rendering)
    (render_input write_input : Input) where
  abbrev failed_answer : Response Page → World × Bytes → Response Page × World
  failed_answer answer (w, reference) =
      (record answer { status = internal_error; body = fallback reference }, w)

  -- A component that is rendered into a buffer and then written, with the records of both failures.
  unfoldable pub write_component : Response Page → World → Response Page × World
  unfolding record_diagnostic
  write_component answer w =
      if rendering.render_fails
      then failed_answer answer
          (record_diagnostic sanitize_detail rendering.render_draw render_input w)
      else if rendering.write_fails
      then (answer, (record_diagnostic sanitize_detail rendering.write_draw write_input w).0)
      else (answer, w)
