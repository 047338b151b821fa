-- ===== src/Resource/Tests.antt =====
-- Runs of pkg/workloadresource, to which its theorems apply. The state is the time.
use baobab_iam.Base.{
  ℕ, suc, ◌+◌, ◌<◌, ◌≤◌, pos, String, Bool, true, false, List, [], ◌∷◌, Option, some, ◌≡◌, refl,
  trim_left, trim_right, trim_space, is_space, contains, has_prefix, has_code, contains_any,
}
use baobab_iam.Result.{Result, ok, for_each}
use baobab_iam.Token.Canonical.{is_noncanonical}
use baobab_iam.Token.Sets.{same_set}
use baobab_iam.Resource.Sets.{distinct_from, distinct, all_in, same_members, contains_all}
use baobab_iam.Resource.Sets.Laws.{same_members-same_set}
use baobab_iam.Resource.Types.{
  GateError, SignedClaims, LiveStatus, Operation, GateProfile, SignedTokenVerifier,
  IssuerStatusReader, CurrentAuthority, Gate, Url,
}
use baobab_iam.Resource.New.{check_profile, new_gate, new, quarter_hour}
use baobab_iam.Resource.Gate.{sub_time, longer, current, claims_refused, authorize}
use baobab_iam.Resource.Gate.Laws.{IsAuthorized, authorize_lem}
use baobab_iam.Resource.Gate.Bounds.{authorize_bounds}

abbrev signed : SignedClaims
signed = record {
  issuer = "https://iam";
  subject = "reporter";
  client_id = "reporter";
  audience = "cms" ∷ [];
  scopes = "cms:read" ∷ [];
  actor_type = "workload";
  issued_at = 10;
  not_before = 10;
  expires_at = 600;
}

abbrev live : LiveStatus
live = record {
  active = true;
  issuer = "https://iam";
  subject = "reporter";
  client_id = "reporter";
  audience = "cms" ∷ [];
  scopes = "cms:read" ∷ [];
  expires_at = 600;
}

abbrev profile : GateProfile
profile = record {
  issuer = "https://iam";
  audience = "cms";
  required_scopes = "cms:read" ∷ [];
  allowed_clients = "reporter" ∷ [];
  max_token_age = pos 900;
}

abbrev verify : SignedTokenVerifier ℕ
verify bearer t = (ok signed, suc t)

abbrev read : IssuerStatusReader ℕ
read bearer t = (ok live, suc t)

abbrev allow : CurrentAuthority ℕ
allow bearer claims operation t = (ok tt, suc t)

abbrev clock : ℕ → ℕ
clock t = t

abbrev never : ℕ → Bool
never t = false

abbrev parse : String → Option Url
parse s = some record {
  scheme = "https";
  hostname = "iam";
  has_user = false;
  raw_query = "";
  force_query = false;
  fragment = "";
}

abbrev gate : Gate ℕ
gate = record {
  p = profile;
  verified = verify;
  issuer = read;
  authority = allow;
  now = clock;
  cancelled = never;
}

abbrev operation : Operation
operation = record { context_id = "c"; tenant_id = "t"; resource_operation = "read" }

abbrev bearer : String
bearer = "0123456789abcdef0123456789"

made_run : new clock never parse profile (some verify) (some read) (some allow) ≡ ok gate
unfolding new new_gate check_profile for_each is_noncanonical trim_space trim_left trim_right
    is_space contains contains_any has_code has_prefix distinct distinct_from
made_run = refl

allowed_run : authorize gate bearer operation 20 ≡ (ok tt, 24)
unfolding authorize current claims_refused sub_time longer trim_space trim_left trim_right is_space
    contains distinct distinct_from all_in same_members contains_all
allowed_run = refl

abbrev there : List String
there = "a" ∷ "b" ∷ []

same_members-same_set_example : same_members there there ≡ same_set there there
same_members-same_set_example = same_members-same_set there there

authorize_lem_example : (c : SignedClaims) × IsAuthorized gate bearer operation 20 24 c
authorize_lem_example = authorize_lem gate bearer operation 20 24 allowed_run

authorize_bounds_example :
    (c : SignedClaims) × (◌≡◌ {A = Result GateError SignedClaims} (ok signed) (ok c))
    × (c.issued_at ≤ 21)
    × (24 < c.expires_at)
    × (24 < c.issued_at + quarter_hour)
authorize_bounds_example =
    authorize_bounds clock never parse profile (some verify) (some read) (some allow) gate bearer
      operation 20 24 made_run allowed_run
