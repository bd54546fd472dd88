-- ===== src/Money/Amount/Minor.antt =====
-- platform/money/money.go: minor units.
use go_boilerplate.Decimal.{Decimal}
use go_boilerplate.Money.Asset.{Asset}
use go_boilerplate.Money.Amount.{Money}
