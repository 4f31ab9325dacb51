-- ===== src/Examples/Shown.antt =====
-- The theorems on amounts (src/amount-display.ts) and on the spending policy (src/policy.ts) at concrete inputs.
use sompi.Base.{◌↔◌, none, ok, ◌≡◌, refl, true, some, codes, pos, arith}
use sompi.Treasury.Types.{wallet_send}
use sompi.Treasury.Capacity
use sompi.Treasury.Capacity.{assert_direct_treasury_capacity, policy_capacity_used}
use sompi.Policy.{distinct}
use sompi.Driver.Loop.{snapshot_admits}
use sompi.Driver.Authority.{capacity-snapshot_admits}
use sompi.Examples.Data
use sompi.Examples.Data.{payee, start}
use sompi.Amounts
use sompi.Amounts.{
  to_decimal, sompi_per_kas, is_canonical, span_digits, match_fraction, parse_kas_amount,
  KasAmountView, format_kas,
}
use sompi.Amounts.RoundTrip.{parse_kas_amount-format_kas}
use sompi.Amounts.Grammar.{Denotes, parse_kas_amount-Denotes}

parse_kas_amount-format_kas_example :
    parse_kas_amount (format_kas (pos 1050000000)) ≡ some (to_decimal 1050000000)
parse_kas_amount-format_kas_example =
    parse_kas_amount-format_kas 1050000000 (omega arith) (omega arith)

parse_kas_amount-Denotes_example :
    (parse_kas_amount (codes "10.50") ≡ some (codes "1050000000"))
    ↔ Denotes (codes "10.50") (codes "1050000000")
parse_kas_amount-Denotes_example = parse_kas_amount-Denotes (codes "10.50") (codes "1050000000")

abbrev view : KasAmountView
view = record {
  atomic = codes "1050000000";
  kas = codes "10.5";
  unit = codes "tKAS";
  display = codes "10.5 tKAS";
}

fits : assert_direct_treasury_capacity start Data.policy wallet_send payee 500 20 1000 none ≡ ok tt
unfolding Capacity.assert_direct_treasury_capacity Capacity.policy_capacity_used
    Capacity.gross_movement Capacity.reservation_use Capacity.settlement_use Capacity.recovery_use
    Capacity.operation_use_except
fits = refl

listed_once : distinct Data.policy.allowlist ≡ true
unfolding distinct
listed_once = refl

capacity-snapshot_admits_example :
    snapshot_admits Data.policy payee 500 (policy_capacity_used 1000 none start) ≡ true
capacity-snapshot_admits_example =
    capacity-snapshot_admits start Data.policy wallet_send payee 500 20 1000 none refl listed_once
      (omega arith) fits
