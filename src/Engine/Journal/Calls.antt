-- ===== src/Engine/Journal/Calls.antt =====
-- NeedsRecovery of internal/plugins/lifecycle.go: whether the recorded plugin calls leave an
-- external effect or a credential unresolved.
use terragraph.Prelude.{
  Bool, true, false, not, ◌&&◌, ◌||◌, Str, bytes, str_eq, List, [], ◌∷◌, ◌++◌, Option, none, some,
  if◌then◌else◌, any, contains, has_suffix, leb, length,
}

-- sdk.CallRecord, as far as NeedsRecovery and recordPlugin read it: `node` and `phase` are the
-- event's, `lease` the identifier of the cleanup's lease where there is one.
pub record PluginCall : Type 0 where
  pub id : Str
  pub alias : Str
  pub kind : Str
  pub effect : Str
  pub mode : Str
  pub node : Str
  pub phase : Str
  pub status : Str
  pub lease : Option Str

abbrev is_status : Str → PluginCall → Bool
is_status s c = str_eq c.status s

-- The key under which the release of a lease is noted.
abbrev pub lease_key : PluginCall → Str → Str
lease_key c id = c.alias ++ bytes "/" ++ c.node ++ bytes "/" ++ id

abbrev is_release : PluginCall → Bool
is_release c =
    str_eq c.phase (bytes "credential.release")
    && (is_status (bytes "completed") c || is_status (bytes "acknowledged") c)

abbrev note_release : PluginCall → Option Str → List Str → List Str
note_release c none later = later
note_release c (some id) later = if is_release c then lease_key c id ∷ later else later

unfoldable pub released : List PluginCall → List Str
released [] = []
released (c ∷ rest) = note_release c c.lease (released rest)

abbrev holds_lease : PluginCall → Option Str → Bool
holds_lease c none = false
holds_lease c (some id) = true

abbrev lease_released : List Str → PluginCall → Option Str → Bool
lease_released keys c none = false
lease_released keys c (some id) = contains (lease_key c id) keys

abbrev is_provider : PluginCall → Bool
is_provider c = str_eq c.kind (bytes "credential_provider")

abbrev is_open : PluginCall → Bool
is_open c = is_status (bytes "pending") c || is_status (bytes "unknown") c

-- Whether the loop returns true at the call.
unfoldable pub call_unresolved : List Str → PluginCall → Bool
call_unresolved keys c =
    if is_status (bytes "acknowledged") c || is_provider c && lease_released keys c c.lease
    then false
    else if holds_lease c c.lease && str_eq c.phase (bytes "credential.acquire")
        || is_provider c && is_open c
    then true
    else if not (str_eq c.mode (bytes "enforce"))
    then false
    else has_suffix c.effect (bytes "external")
      && (is_open c
          || is_status (bytes "failed") c && (str_eq c.kind (bytes "observer") || is_provider c))

-- NeedsRecovery
unfoldable pub calls_need_recovery : List PluginCall → Bool
calls_need_recovery calls = any (call_unresolved (released calls)) calls

-- The loop of recordPlugin over the calls; `none` where none of them has the identifier.
unfoldable pub put_call : PluginCall → List PluginCall → Option (List PluginCall)
put_call c [] = none
put_call c (d ∷ rest) =
    let later = put_call c rest in
    if str_eq d.id c.id
    then some (c ∷ rest)
    else elim later [ none ↦ none | some calls ↦ some (d ∷ calls) ]

-- The calls with one that was recorded before, or is new, up to the limit of them.
unfoldable pub with_call : PluginCall → List PluginCall → Option (List PluginCall)
with_call c calls = elim (put_call c calls) [
  | some changed ↦ some changed
  | none ↦ if leb 10000 (length calls) then none else some (calls ++ c ∷ [])
]
