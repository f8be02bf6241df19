-- ===== src/Reservation.antt =====
-- broker/app/services/reservation.py.
pub mod Window
pub mod Quota
pub mod Booking
pub mod Access
pub mod Available
pub mod Booked
pub mod Placed
pub mod Policy
pub mod Overlap
pub mod Instant
pub mod InstantBooking
pub mod Limits
pub mod Cancel
pub mod Listing
pub mod Availability
pub mod Calendar
mod Examples
