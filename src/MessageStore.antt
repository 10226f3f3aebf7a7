-- ===== src/MessageStore.antt =====
-- MessageStore/: a console client that stores messages for users. `Device` is the framework's
-- IO device, `Users` the user database, `Ui` the task that serves the console.
pub mod Outcome
pub mod Device
pub mod Users
pub mod Ui
mod Tests
