-- ===== src/Worker/Snapshot.antt =====
-- `_validated_candidate_snapshot` of jobs.py: whether Apple already has the candidate.
use icloud_code_gateway.Base.{
  String, Bool, true, Option, none, some, List, [], ◌∷◌, ◌++◌, if◌then◌else◌, str_eq, strip,
  or_else, any, all, find, map, returned, raised,
}
use icloud_code_gateway.Errors.{Exception, Result}
use icloud_code_gateway.Columns.{clean_candidate}
use icloud_code_gateway.Aliases.Rows.{Remote, alias_from_row}
use icloud_code_gateway.Aliases.Table.{Aliases}
use icloud_code_gateway.Worker.Environment.{Environment}
use icloud_code_gateway.Worker.Environment.Actions.{
  Worker, ◌>>=◌, ◌>>◌, pure, attempt, call, tell, raise_if_stopping,
}

pub data Resolution : Type 0 where
  found : Remote → Resolution
  absent unavailable : Resolution

-- `remote.get("hme") or remote.get("email") or ""`
unfoldable pub remote_email : Remote → String
remote_email r = let hme = or_else r.hme "" in if str_eq hme "" then or_else r.email "" else hme

-- `str(remote.get("anonymousId") or "").strip()`
unfoldable pub anonymous_id : Remote → String
unfolding strip
anonymous_id r = strip (or_else r.anonymous_id "")

abbrev nonempty_ids : Option Remote → List String
nonempty_ids none = []
nonempty_ids (some r) = let id = anonymous_id r in if str_eq id "" then [] else id ∷ []

-- `known_ids`: the ids of the aliases that the database holds.
unfoldable pub known_ids : Aliases → Result (List String)
unfolding anonymous_id alias_from_row
known_ids [] = returned []
known_ids (a ∷ rows) = elim (alias_from_row a) [
  | raised e ↦ raised e
  | returned view ↦ elim (known_ids rows) [
    | raised e ↦ raised e
    | returned ids ↦ returned (nonempty_ids view.remote_metadata ++ ids)
  ]
]

abbrev pub is_subset : List String → List String → Bool
is_subset ids others = all (λ id. any (str_eq id) others) ids

-- What the snapshot says of the candidate: `absent` only if it also shows every alias that is known.
unfoldable pub resolve : (String → String) → String → Aliases → List Remote → Resolution
unfolding remote_email anonymous_id known_ids clean_candidate
resolve casefold candidate rows remotes =
    elim (find (λ r. str_eq (clean_candidate casefold (remote_email r)) candidate) remotes) [
      | some r ↦ found r
      | none ↦ elim (known_ids rows) [
        | raised _ ↦ unavailable
        | returned ids ↦ if is_subset ids (map anonymous_id remotes) then absent else unavailable
      ]
    ]

module _ {W : Type 0} where
  abbrev done : {A : Type 0} → Result A → Worker W A
  done r s = (r, s)

  -- The validated snapshot of a client, which is closed again whatever the call does.
  unfoldable pub list_closing : Environment W → Worker W (Option (List Remote))
  list_closing env = do
    call env.open_client
    remotes ← attempt (call env.list_aliases)
    tell env.close_client
    rs ← done remotes
    pure (some rs)

  -- `none` if there is no session.
  unfoldable pub fetch_aliases : Environment W → Worker W (Option (List Remote))
  fetch_aliases env = do
    configured ← call env.get_hme_session
    if configured then list_closing env else pure none

  -- One turn of the loop, with what follows when the session was refused.
  unfoldable pub look : Environment W → String → Worker W Resolution → Worker W Resolution
  look env candidate refused = do
    raise_if_stopping env
    remotes ← attempt (fetch_aliases env)
    elim remotes [
      | returned none ↦ pure unavailable
      | returned (some rs) ↦ λ s. (returned (resolve env.casefold candidate s.aliases rs), s)
      | raised Exception.hme_session ↦ refused
      | raised _ ↦ pure unavailable
    ]

  -- The loop turns at most twice: the session is refreshed once.
  unfoldable pub validated_candidate_snapshot : Environment W → String → Worker W Resolution
  validated_candidate_snapshot env candidate = look env candidate (do
    refreshed ← attempt (call (env.refresh_hme_session true))
    elim refreshed [
      | raised _ ↦ pure unavailable
      | returned _ ↦ look env candidate (pure unavailable)
    ])
