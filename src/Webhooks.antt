-- ===== src/Webhooks.antt =====
-- src/sync.rs: the webhook targets, `[BINDING=]URL` entries of one variable.
use chaintracks_cloudflare.Prelude.{
  Option, none, some, Text, codes, Bool, not, ◌&&◌, ◌||◌, List, [], ◌∷◌, length, ◌==◌, contains,
  if◌then◌else◌, trim, split, split_once, starts_with, has_text,
}

pub record WebhookTarget : Type 0 where
  pub binding : Option Text
  pub url : Text

-- `binding=url` where the part before the first `=` can be a binding's name; else all is the URL.
unfoldable pub target_of : Text → Option Text × Text
target_of entry = elim (split_once b'=' entry) [
  | none ↦ (none, entry)
  | some (b, u) ↦
      if not (length (trim b) == 0) && (not (has_text (codes "://") b) && not (contains b b'/'))
      then (some (trim b), trim u)
      else (none, entry)
]

abbrev is_http : Text → Bool
is_http url = starts_with (codes "https://") url || starts_with (codes "http://") url

unfoldable pub targets_of : List Text → List WebhookTarget
unfolding target_of
targets_of [] = []
targets_of (raw ∷ rest) =
    let t = target_of (trim raw) in
    let more = targets_of rest in
    if is_http t.1 then record { binding = t.0; url = t.1 } ∷ more else more

unfoldable pub parse_webhook_targets : Text → List WebhookTarget
unfolding targets_of
parse_webhook_targets raw = targets_of (split b',' raw)
