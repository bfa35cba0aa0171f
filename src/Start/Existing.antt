-- ===== src/Start/Existing.antt =====
-- internal/forward.go: the loop of `StartForward` over the helpers that cover the request already.
use docker_port_forward.Common.{
  ℕ, zero, suc, Bool, true, false, ◌&&◌, ◌||◌, Option, none, some, List, [], ◌∷◌, Result, ok, err,
  is_nil, ◌==◌,
}
use docker_port_forward.Text.{Text, text_eq, trim_prefix}
use docker_port_forward.Ports.{PortPair}
use docker_port_forward.Docker.{Client, Summary, Error, removing_helper, label, M}
use docker_port_forward.Helpers.{
  label_source_range, label_target_network, helper_name, slash, find_overlapping_helper,
  check_helper, remove_helpers, Verdict,
}

-- What of `ForwardInput` the loop reads: the resolved target and pairs, the label of the source
-- range, and the network that is asked for, if any.
pub record Request : Type 0 where
  pub target_id : Text
  pub pairs : List PortPair
  pub wanted_range : Text
  pub network : Text

-- An existing helper that does it, or how many were removed and a new one is to be made.
pub data Reuse : Type 0 where
  reused : Summary → Reuse
  fresh : ℕ → Reuse

abbrev pub is_current : Verdict → Bool
is_current none = true
is_current (some _) = false

unfoldable pub serves : Request → Summary → Verdict → Bool
serves req existing verdict =
    is_current verdict
    && text_eq (label label_source_range existing.labels) req.wanted_range
    && (is_nil req.network || text_eq (label label_target_network existing.labels) req.network)

module _ (c : Client) (req : Request) where
  -- `next` goes on with the number of helpers removed so far
  abbrev pub replace : (ℕ → M c.World (Option Reuse)) → ℕ → Summary → M c.World (Option Reuse)
  replace next removed existing w =
      let (n, w') = remove_helpers c (existing.id ∷ []) w in
      elim (n == 1) [
        | true ↦ next (suc removed) w'
        | false ↦ (err (removing_helper (trim_prefix slash (helper_name existing))), w')
      ]

  abbrev pub judged :
      (ℕ → M c.World (Option Reuse)) → ℕ → Summary → Result Error Verdict → M c.World (Option Reuse)
  judged next removed existing (err e) w = (err e, w)
  judged next removed existing (ok verdict) w = elim (serves req existing verdict) [
    | true ↦ (ok (some (reused existing)), w)
    | false ↦ replace next removed existing w
  ]

  abbrev pub matched :
      (ℕ → M c.World (Option Reuse)) → ℕ → Result Error (Option Summary) → M c.World (Option Reuse)
  matched next removed (err e) w = (err e, w)
  matched next removed (ok none) w = (ok (some (fresh removed)), w)
  matched next removed (ok (some existing)) w =
      let (verdict, w') = check_helper c existing w in judged next removed existing verdict w'

  -- `fuel` bounds the rounds; with none left there is no result.
  unfoldable pub reuse_helper : ℕ → ℕ → M c.World (Option Reuse)
  reuse_helper zero removed w = (ok none, w)
  reuse_helper (suc fuel) removed w =
      let (r, w') = find_overlapping_helper c req.target_id req.pairs w in
      matched (reuse_helper fuel) removed r w'
