-- ===== src/Auth/Admin/Current.antt =====
-- services/auth/internal/api: the administration together with the checks that are cached in Redis.
use giti.Prelude.{◌≡◌, refl, ap, sym, ◌∙◌, ℕ, ◌+◌, Bool, Option, some, Text}
use giti.Auth.Check.{CheckOutput, decided, check_subject}
use giti.Auth.Store.{list_rules}
use giti.Auth.Coherence.{Ask, System, key_of, body_of, cache_of, changes, bumps, Reached, continues}
use giti.Auth.Coherence.Fresh.{Reached-check_subject}
use giti.Auth.Admin.{Reply, Service, Decoders, Call, serve, next_generation, backing_of}
use giti.Auth.Admin.Settled.{IsSettled, refuses, answers, serve-IsSettled}
use giti.Auth.Admin.Settled

-- The system of the checks has the rules of the tables and their generation, and no change of them is
-- on its way.
pub record Mirrors {W : Type 0} (s : Service) (sys : System W) : Type 0 where
  pub rules : sys.rules ≡ list_rules s.db
  pub generation : s.generation ≡ some sys.generation
  pub idle : sys.pending ≡ 0

-- A system with the entries of another and its checks on their way, for a service that has changed.
pub record IsNext {W : Type 0} (s : Service) (sys sys' : System W) : Type 0 where
  pub mirrors : Mirrors s sys'
  pub entries_kept : sys'.entries ≡ sys.entries
  pub flights_kept : sys'.flights ≡ sys.flights

module _ {W : Type 0} (render : ℕ → Text) (default_allow : Bool) (marshal : CheckOutput → W)
    (asked : Ask → Type 0) where
  -- A call is no step of the checks, or it changes the rules and then bumps the generation.
  settled-Mirrors :
      (s : Service) (sys : System W) (out : Reply × Service)
      → IsSettled s out
      → Reached render default_allow marshal asked sys
      → Mirrors s sys
      → (sys' : System W) × (Reached render default_allow marshal asked sys'
          × IsNext out.1 sys sys')
  unfolding next_generation
  settled-Mirrors s sys out (refuses e) r h =
      (sys, (r, record { mirrors = h; entries_kept = refl; flights_kept = refl }))
  settled-Mirrors s sys out (answers e) r h =
      (sys, (r, record { mirrors = h; entries_kept = refl; flights_kept = refl }))
  settled-Mirrors s sys out (Settled.changes {db = db} e c) r h =
      let changed : System W = record sys { rules = list_rules db; pending = sys.pending + 1 } in
      (
        record changed { generation = sys.generation + 1; pending = sys.pending },
        (
          continues (continues r (changes (list_rules db))) (bumps {s = changed} sys.pending refl),
          record {
            mirrors = record {
              rules = refl;
              generation = ap next_generation h.generation;
              idle = h.idle;
            };
            entries_kept = refl;
            flights_kept = refl;
          },
        ),
      )

  module _
      (keys_differ : (g g' : ℕ) (x x' : Ask)
        → asked x
        → asked x'
        → key_of render g x ≡ key_of render g' x'
        → (g ≡ g') × (x ≡ x')) where
    -- After a call of the administration, with all that checks cached before it and with those that
    -- are on their way, a check answers from the rules that the tables then have, where before the
    -- call no other change was on its way and the keys of the questions that are asked differ.
    pub serve-check_subject :
        (d : Decoders) (collate : Text → Text → Bool) (verify_token : Text → Option (Text × _))
        (decode_base64 : Text → Option Text) (call : Call) (s : Service) (sys : System W) (x : Ask)
        → Reached render default_allow marshal asked sys
        → Mirrors s sys
        → asked x
        → (sys' : System W) × (IsNext (serve d collate call s).1 sys sys'
            × ((check_subject
                  (backing_of d collate verify_token decode_base64 (serve d collate call s).1.db)
                  default_allow
                  marshal
                  x.0
                  x.1
                  (some (cache_of render sys'))).0
                ≡ decided
                    (body_of default_allow marshal (list_rules (serve d collate call s).1.db) x)))
    unfolding backing_of
    serve-check_subject d collate verify_token decode_base64 call s sys x r h a =
        let (sys', (reached, next)) =
          settled-Mirrors s sys (serve d collate call s) (serve-IsSettled d collate call s) r h in
        let backing =
          backing_of d collate verify_token decode_base64 (serve d collate call s).1.db in
        (
          sys',
          (
            next,
            Reached-check_subject render default_allow marshal asked keys_differ sys' backing x
                  reached next.mirrors.idle a (ap some (sym next.mirrors.rules))
                ∙ ap (λ rs. decided (body_of default_allow marshal rs x)) next.mirrors.rules,
          ),
        )
