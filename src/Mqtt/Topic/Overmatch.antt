-- ===== src/Mqtt/Topic/Overmatch.antt =====
-- uiot/mqtt/src/mqtt_client_common.c: _is_topic_matched on a filter that ends in "/#".
use ucloud_iot_rtthread_pack.Prelude.{
  ℕ, ◌≡◌, ◌≢◌, Bool, true, Option, none, some, List, [], ◌∷◌, ◌++◌, arith, ◌∙◌, All,
}
use ucloud_iot_rtthread_pack.Mqtt.Topic.{matched, is_topic_matched}
use ucloud_iot_rtthread_pack.Mqtt.Topic.Matching.{
  IsPlain, Matches, plain, plus, hash, parent, matched_same,
}

matched_overmatch :
    (prefix rest : List ℕ) (c : ℕ) (prev : Option ℕ)
    → All IsPlain prefix
    → c ≢ b'/'
    → matched (prefix ++ b'/' ∷ b'#' ∷ []) prev (prefix ++ c ∷ rest) ≡ some true
matched_overmatch [] rest c prev h hc = unfold matched in ground arith
matched_overmatch (p ∷ ps) rest c prev h hc =
    matched_same p (ps ++ b'/' ∷ b'#' ∷ []) (ps ++ c ∷ rest) prev h.0
    ∙ matched_overmatch ps rest c (some p) h.1 hc

not-Matches :
    (prefix rest : List ℕ) (c : ℕ) {start : Bool}
    → All IsPlain prefix
    → c ≢ b'/'
    → ¬ Matches start (prefix ++ b'/' ∷ b'#' ∷ []) (prefix ++ c ∷ rest)
not-Matches [] rest c h hc (plain p e m) = hc e
not-Matches [] rest c h hc (plus l r s e al ar e' m) = ground arith
not-Matches [] rest c h hc (hash s e e') = ground arith
not-Matches [] rest c h hc (parent e e' e'') = cc
not-Matches (p ∷ ps) rest c h hc (plain q e m) = not-Matches ps rest c h.1 hc m
not-Matches (p ∷ ps) rest c h hc (plus l r s e al ar e' m) = h.0.0 e
not-Matches (p ∷ ps) rest c h hc (hash s e e') = h.0.1 e
not-Matches (p ∷ ps) rest c h hc (parent e e' e'') = cc

-- For every prefix without wildcards, the filter prefix/# also takes the topic names that go on
-- behind the prefix with a byte other than '/', which MQTT does not let it match: "a/#" takes "ab".
pub is_topic_matched_overmatch :
    (prefix rest : List ℕ) (c : ℕ)
    → All IsPlain prefix
    → c ≢ b'/'
    → (is_topic_matched (prefix ++ b'/' ∷ b'#' ∷ []) (prefix ++ c ∷ rest) ≡ some true)
      × (¬ Matches true (prefix ++ b'/' ∷ b'#' ∷ []) (prefix ++ c ∷ rest))
unfolding is_topic_matched
is_topic_matched_overmatch prefix rest c h hc =
    (matched_overmatch prefix rest c none h hc, not-Matches prefix rest c h hc)
