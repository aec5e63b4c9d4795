-- ===== src/Tests.antt =====
-- The theorems at concrete inputs, and small runs of the code.
mod ClientsTests
mod CompatTests
mod DaemonTests
mod EbtablesTests
mod CaptureTests
mod Fixtures
mod HashmapTests
mod LogTests
mod NetlinkTests
mod PayloadTests
mod ProvisionTests
mod CommandsTests
mod ServiceTests
mod SettingsTests
