-- ===== src/Transfer/Upload/Requests.antt =====
-- The requests that an upload makes when each of them succeeds, in their order, are the parts of
-- Transfer.Plan, and the etags that complete the upload are theirs.
use s3client.Common.{
  ℕ, zero, suc, ◌+◌, ◌-◌, ◌*◌, ◌/◌, ◌^◌, ◌<◌, min, List, [], ◌∷◌, ◌++◌, Bytes, some, map,
  append_assoc, append-nil, ◌≡◌, refl, sym, ap, ◌∙◌, arith, length, get_or, ◌==◌, false,
}
use s3client.Common.Word.{u32, u64, sub64}
use mathlib.Core.List.{map-append}
use s3client.Hash.Utility.{through}
use s3client.Transfer.Session.{
  Config, Outcome, ok, Part, Api, Session, M, bound, called, ◌>>=◌, pick_endpoint, first_of,
  last_of, part_count,
}
use s3client.Transfer.Upload.{
  do_upload_part, retry_or_throw, upload_loop, upload_parts, upload_jobs, upload_all, source_name,
}
use s3client.Transfer.Plan.{loop_plan, job_plan, jobs_plan, ceil_div}

-- A world that records the parts that it is sent: every request succeeds, only the upload of a part
-- is recorded, and the etag of a part is a function of the part.
pub record Records {W : Type 0} (api : Api W) (trace : W → List Part) (etag_of : Part → Bytes)
    : Type 0 where
  pub picks : (w : W) (a b : ℕ) → trace (api.random_index w a b).1 ≡ trace w
  pub creates :
      (w : W) (e : Bytes)
      → (uid : Bytes) × (next : W) × (api.create w e ≡ (some uid, next)) × (trace next ≡ trace w)
  pub uploads :
      (w : W) (e uid : Bytes) (p : Part)
      → (next : W) × (api.upload_file_part w e uid p ≡ (some (etag_of p), next))
        × (trace next ≡ trace w ++ p ∷ [])

-- A run that ends with `a`, after the parts `ps` are sent from the world `w`, with no retry.
abbrev pub Sends :
    {W A : Type 0} → (W → List Part) → Session W → Outcome A × Session W → A → List Part → Type 0
Sends {W} trace s r a ps =
    (t : Session W) × (r ≡ (ok a, t))
    × (trace t.world ≡ trace s.world ++ ps)
    × (t.retries ≡ s.retries)

-- A run that sends the parts `ps` and ends with the request that completes the upload, which names
-- the etags of the parts in their order.
abbrev pub Completes :
    {W : Type 0}
    → Api W
    → (W → List Part)
    → (Part → Bytes)
    → Session W
    → Outcome Bytes × Session W
    → List Part
    → Type 0
Completes {W} api trace etag_of s m ps =
    (endpoint uid : Bytes) × (t : Session W) × (m
      ≡ called t.retries (api.complete t.world endpoint uid (map etag_of ps)))
    × (trace t.world ≡ trace s.world ++ ps)
    × (t.retries ≡ s.retries)

module _ {W : Type 0} (api : Api W) (trace : W → List Part) (etag_of : Part → Bytes)
    (r : Records api trace etag_of) where
  relabel :
      {A : Type 0} (s : Session W) (m : Outcome A × Session W) (a b : A) (ps : List Part)
      → Sends trace s m a ps
      → a ≡ b
      → Sends trace s m b ps
  relabel s m a b ps (t, e, sent, kept) same = (t, e ∙ ap (λ x. (ok x, t)) same, sent, kept)

  -- One run behind another.
  then :
      {A B : Type 0} (m : M W A) (f : A → M W B) (s : Session W) (a : A) (b : B) (ps qs : List Part)
      → Sends trace s (m s) a ps
      → ((t : Session W) → Sends trace t (f a t) b qs)
      → Sends trace s ((m >>= f) s) b (ps ++ qs)
  then m f s a b ps qs (t, e, sent, kept) rest =
      let (u, e', sent', kept') = rest t in
      (
        u,
        ap (λ x. bound x f) e ∙ e',
        sent' ∙ ap (λ x. x ++ qs) sent ∙ append_assoc (trace s.world) ps qs,
        kept' ∙ kept,
      )

  part_sent :
      (max_retries : ℕ) (endpoint uid : Bytes) (p : Part) (s : Session W)
      → Sends trace s
          (do_upload_part api (suc max_retries) max_retries endpoint uid p s)
          (etag_of p)
          (p ∷ [])
  unfolding do_upload_part retry_or_throw
  part_sent max_retries endpoint uid p s =
      let (next, e, sent) = r.uploads s.world endpoint uid p in
      (record { world = next; retries = s.retries }, rw e, sent, refl)

  loop_sent :
      (cfg : Config) (file endpoint uid : Bytes) (first part_size chunk left i offset : ℕ)
      (etags : List Bytes) (s : Session W)
      → let plan = loop_plan file first part_size chunk left i offset in
        Sends trace s
          (upload_loop api cfg file endpoint uid first part_size chunk left i offset etags s)
          (etags ++ map etag_of plan)
          plan
  unfolding upload_loop loop_plan
  loop_sent cfg file endpoint uid first part_size chunk zero i offset etags s =
      (s, ap (λ x. (ok x, s)) (sym (append-nil etags)), sym (append-nil (trace s.world)), refl)
  loop_sent cfg file endpoint uid first part_size chunk (suc left) i offset etags s =
      let size : ℕ = min part_size (sub64 chunk (u64 (i * part_size))) in
      let p : Part = record {
        file = file;
        offset = offset;
        size = size;
        number = u32 (first + i);
      } in
      let plan = loop_plan file first part_size chunk left (i + 1) (u64 (offset + size)) in
      relabel s _ _ _ (p ∷ plan)
        (then (do_upload_part api (suc cfg.max_retries) cfg.max_retries endpoint uid p)
          (λ etag.
            upload_loop api cfg file endpoint uid first part_size chunk left (i + 1)
              (u64 (offset + size)) (etags ++ etag ∷ []))
          s (etag_of p) ((etags ++ etag_of p ∷ []) ++ map etag_of plan) (p ∷ []) plan
          (part_sent cfg.max_retries endpoint uid p s)
          (λ t.
            loop_sent cfg file endpoint uid first part_size chunk left (i + 1) (u64 (offset + size))
              (etags ++ etag_of p ∷ []) t))
        (append_assoc etags (etag_of p ∷ []) (map etag_of plan))

  endpoint_picked :
      (endpoints : List Bytes) (s : Session W)
      → (e : Bytes) × Sends trace s (pick_endpoint api endpoints s) e []
  unfolding pick_endpoint
  endpoint_picked endpoints s =
      let n = length endpoints - 1 in
      (
        get_or endpoints (api.random_index s.world 0 n).0 [],
        (
          record { world = (api.random_index s.world 0 n).1; retries = s.retries },
          refl,
          r.picks s.world 0 n ∙ sym (append-nil (trace s.world)),
          refl,
        ),
      )

  parts_sent :
      (cfg : Config) (file uid : Bytes) (per_job first last n size job : ℕ) (s : Session W)
      → source_name cfg ≡ some file
      → part_count first last ≡ some n
      → let plan = job_plan file per_job first n size job in
        Sends trace s
          (upload_parts api cfg uid per_job first last size job s)
          (map etag_of plan)
          plan
  unfolding upload_parts job_plan
  parts_sent cfg file uid per_job first last n size job s named count =
      let (endpoint, picked) = endpoint_picked cfg.endpoints s in
      let offset : ℕ = u64 (job * per_job) in
      let chunk : ℕ = min per_job (sub64 size offset) in
      let part_size : ℕ = u64 (chunk + n - 1) / n in
      let plan = loop_plan file first part_size chunk n 0 offset in
      rw (count, named)
        (then (pick_endpoint api cfg.endpoints)
          (λ e. upload_loop api cfg file e uid first part_size chunk n 0 offset []) s endpoint
          (map etag_of plan) [] plan picked
          (λ t. loop_sent cfg file endpoint uid first part_size chunk n 0 offset [] t))

  jobs_sent :
      (cfg : Config) (file uid : Bytes) (per_job size left i : ℕ) (etags : List Bytes)
      (s : Session W) (ps : List Part)
      → source_name cfg ≡ some file
      → jobs_plan file per_job cfg.parts_per_job size left i ≡ some ps
      → Sends trace s
          (upload_jobs api cfg uid per_job size left i etags s)
          (etags ++ map etag_of ps)
          ps
  unfolding upload_jobs jobs_plan
  jobs_sent cfg file uid per_job size zero i etags s ps named planned =
      let same : ps ≡ [] = cc in
      rw same
        (s, ap (λ x. (ok x, s)) (sym (append-nil etags)), sym (append-nil (trace s.world)), refl)
  jobs_sent cfg file uid per_job size (suc left) i etags s ps named planned =
      let first : ℕ = first_of cfg.parts_per_job i in
      let last : ℕ = last_of cfg.parts_per_job i in
      let (n, count, behind) = through (part_count first last) _ planned in
      let (rest, more, whole) =
        through (jobs_plan file per_job cfg.parts_per_job size left (i + 1)) _ behind in
      let plan = job_plan file per_job first n size i in
      let same : ps ≡ plan ++ rest = cc in
      rw same (
        relabel s _ _ _ (plan ++ rest)
          (then (upload_parts api cfg uid per_job first last size i)
            (λ w. upload_jobs api cfg uid per_job size left (i + 1) (etags ++ w)) s
            (map etag_of plan) ((etags ++ map etag_of plan) ++ map etag_of rest) plan rest
            (parts_sent cfg file uid per_job first last n size i s named count)
            (λ t.
              jobs_sent cfg file uid per_job size left (i + 1) (etags ++ map etag_of plan) t rest
                named more))
          (append_assoc etags (map etag_of plan) (map etag_of rest)
            ∙ ap (λ x. etags ++ x) (sym (map-append etag_of plan rest))))

  all_run :
      (cfg : Config) (size : ℕ) (s s1 t : Session W) (endpoint uid : Bytes) (next : W)
      (tags : List Bytes)
      → 0 < cfg.jobs
      → size + cfg.jobs < 2 ^ 64
      → pick_endpoint api cfg.endpoints s ≡ (ok endpoint, s1)
      → api.create s1.world endpoint ≡ (some uid, next)
      → upload_jobs api cfg uid
          (ceil_div size cfg.jobs)
          size
          cfg.jobs
          0
          []
          (record { world = next; retries = s1.retries })
        ≡ (ok tags, t)
      → upload_all api cfg size s ≡ called t.retries (api.complete t.world endpoint uid tags)
  unfolding upload_all
  all_run cfg size s s1 t endpoint uid next tags some_job small e1 e2 e3 =
      let wrap : u64 (size + cfg.jobs - 1) ≡ size + cfg.jobs - 1 = omega arith in
      let test : (cfg.jobs == 0) ≡ false = ground arith in rw (wrap, test, e1, e2, e3)

-- An upload whose requests all succeed sends the parts of the jobs in their order, and no others,
-- retries nothing, and completes the upload with the etags of these parts in the same order. The name
-- of the source and the bounds of the jobs are defined: `source_name` and `jobs_plan` return. There is
-- at least one job, and the size and the jobs together are below 2 ^ 64.
pub upload_all-Completes :
    {W : Type 0} (api : Api W) (trace : W → List Part) (etag_of : Part → Bytes) (cfg : Config)
    (size : ℕ) (s : Session W) (file : Bytes) (ps : List Part)
    → Records api trace etag_of
    → source_name cfg ≡ some file
    → 0 < cfg.jobs
    → size + cfg.jobs < 2 ^ 64
    → jobs_plan file (ceil_div size cfg.jobs) cfg.parts_per_job size cfg.jobs 0 ≡ some ps
    → Completes api trace etag_of s (upload_all api cfg size s) ps
upload_all-Completes api trace etag_of cfg size s file ps r named some_job small planned =
    let (endpoint, picked) = endpoint_picked api trace etag_of r cfg.endpoints s in
    let (s1, e1, traced1, kept1) = picked in
    let (uid, next, e2, traced2) = r.creates s1.world endpoint in
    let s2 : Session _ = record { world = next; retries = s1.retries } in
    let (t, e3, traced3, kept3) =
      jobs_sent api trace etag_of r cfg file uid (ceil_div size cfg.jobs) size cfg.jobs 0 [] s2 ps
        named planned in
    (
      endpoint,
      uid,
      t,
      all_run api trace etag_of r cfg size s s1 t endpoint uid next (map etag_of ps) some_job small
          e1 e2 e3,
      traced3 ∙ ap (λ x. x ++ ps) (traced2 ∙ traced1 ∙ append-nil (trace s.world)),
      kept3 ∙ kept1,
    )
