-- ===== src/Examples.antt =====
-- Concrete runs: the theorems applied to inputs at which their hypotheses hold.
mod Arrays
mod Strings
mod Blocks
mod Stores
mod Devices
mod Handlers
mod Packets
mod DataSets
mod Transfers
mod Lists
use cmtp_responder.Base.{ℕ, true, refl}
use cmtp_responder.Property.PtpArray.{Allocator, Grants}

-- A memory that grants every request, and whose fresh blocks hold sevens.
abbrev granting : Allocator
granting = record { malloc = λ (bytes : ℕ). true; junk = 7 }

granting-Grants : Grants granting
granting-Grants = record { at = λ bytes pos. refl }
